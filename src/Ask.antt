-- ===== src/Ask.antt =====
-- What a handler asks of others while it learns: `paxos_retrieve` of paxos_request.c,
-- `acceptor_retry` of paxos_retry.c, `continuation_new` of types/continuation.c and
-- `proposer_welcome` of paxos_greet.c, all in libmotmot/src.
use motmot.Base.{ℕ, List, [], ◌∷◌, ◌++◌, Option, none, some}
use motmot.Core.{op_retrieve, op_retry}
use motmot.Session.{Acceptor, Instance, Session, Callback, Continuation, continue_welcome}
use motmot.SessionLocal.{acceptor_find}
use motmot.Msgpack.{Tok, paxos_payload_begin_array}
use motmot.Codec.{paxos_header_pack, paxos_value_pack, paxos_paxid_pack}
use motmot.Util.{
  err_ret, header_init, header_message, paxos_broadcast, paxos_send, paxos_send_to_proposer,
}
use motmot.Exec.{option_case, M, pure, gets, modify, call_connect, ◌>>=◌, ◌>>◌}

unfoldable pub retrieve_message : Session → Instance → List Tok
retrieve_message pax inst =
    paxos_payload_begin_array 2
    ++ (paxos_header_pack (header_init pax op_retrieve inst.pi_hdr.ph_inum)
        ++ (paxos_payload_begin_array 2
            ++ (paxos_paxid_pack pax.self_id ++ paxos_value_pack inst.pi_val)))

-- To the originator, or to everybody if it has gone.
unfoldable pub retrieve_from : Option Acceptor → List Tok → M ℕ
retrieve_from none py = paxos_broadcast py
retrieve_from (some acc) py = option_case acc.pa_peer (paxos_broadcast py) (λ p. paxos_send acc py)

unfoldable pub paxos_retrieve : Instance → M ℕ
unfolding retrieve_message retrieve_from
paxos_retrieve inst = do
  pax ← gets (λ s. s)
  retrieve_from (acceptor_find inst.pi_val.pv_reqid.id pax.alist) (retrieve_message pax inst)

unfoldable pub acceptor_retry : ℕ → M ℕ
acceptor_retry hole = do
  hdr ← gets (λ s. header_init s op_retry hole)
  paxos_send_to_proposer (header_message hdr)

unfoldable pub continuation_new : Callback → ℕ → M Continuation
continuation_new func paxid = do
  k ← gets (λ s. record { pk_cb = func; pk_session_id = s.session_id; pk_paxid = paxid })
  modify (λ s. record s { clist = s.clist ++ k ∷ [] })
  pure k

unfoldable pub proposer_welcome : Acceptor → M ℕ
unfolding continuation_new
proposer_welcome acc = do
  k ← continuation_new continue_welcome acc.pa_paxid
  err_ret (call_connect acc.pa_desc k) (pure 0)
