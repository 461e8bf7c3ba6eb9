-- ===== src/Request.antt =====
-- libmotmot/src/paxos_request.c but for paxos_retrieve.
use motmot.Base.{
  ℕ, true, not, ◌||◌, List, [], ◌∷◌, ◌++◌, Option, none, some, ◌==◌, ltb, inc32, if◌then◌else◌,
}
use motmot.Core.{op_request, op_resend, Header, Dkind, Value}
use motmot.Session.{Bytes, Acceptor, Request, Session, zero_instance}
use motmot.SessionLocal.{acceptor_find, instance_find, request_find, request_insert}
use motmot.Msgpack.{Tok, Obj, nil, cons, array, paxos_payload_begin_array}
use motmot.Codec.{
  paxos_header_pack, paxos_request_pack, paxos_request_unpack, paxos_value_unpack,
  paxos_paxid_unpack,
}
use motmot.Util.{
  err_ret, header_init, is_proposer, request_needs_cached, paxos_broadcast, paxos_send,
  paxos_send_to_proposer, proposer_paxid,
}
use motmot.Learn.{paxos_commit}
use motmot.Proposer.{proposer_decree, proposer_decree_part}
use motmot.Objection.{acceptor_refuse}
use motmot.Exec.{
  option_case, M, pure, gets, modify, assert, need, assert_failed, null_deref, ◌>>=◌, ◌>>◌,
}

-- The instance that carries a request's value, deferred while we are preparing.
unfoldable pub proposer_decree_request : Request → M ℕ
proposer_decree_request req = do
  prep ← gets (λ s. s.prep)
  let inst = record zero_instance { pi_val = req.pr_val }
  option_case prep (proposer_decree inst)
      (λ pp. (do modify (λ s. record s { idefer = s.idefer ++ inst ∷ [] }); pure 0))

unfoldable pub cache_request : Request → Session → Session
cache_request req s = record s { rcache = (request_insert req s.rcache).0 }

unfoldable pub request_message : Header → Request → List Tok
request_message hdr req =
    paxos_payload_begin_array 2 ++ (paxos_header_pack hdr ++ paxos_request_pack req)

-- The request that `paxos_request` allocates, after `++pax->req_id`.
unfoldable pub new_request : Session → Dkind → Bytes → Request
new_request pax dkind msg = record {
  pr_val = record {
    pv_dkind = dkind;
    pv_reqid = record { id = pax.self_id; gen = pax.req_id };
    pv_extra = 0;
  };
  pr_data = msg;
}

-- A session that is not NULL.
unfoldable pub paxos_request : Dkind → Bytes → M ℕ
unfolding new_request request_message cache_request
paxos_request dkind msg = do
  p ← proposer_paxid
  hdr ← gets (λ s. header_init s op_request p)
  modify (λ s. record s { req_id = inc32 s.req_id })
  req ← gets (λ s. new_request s dkind msg)
  let needs_cached = request_needs_cached dkind
  (if needs_cached then modify (cache_request req) else pure tt)
  pax ← gets (λ s. s)
  err_ret
      (if not (is_proposer pax) || needs_cached
        then (if needs_cached
            then paxos_broadcast (request_message hdr req)
            else paxos_send_to_proposer (request_message hdr req))
        else pure 0)
      (if is_proposer pax then proposer_decree_request req else pure 0)

-- A requester that takes somebody ranked below us for the proposer is killed.
unfoldable pub proposer_ack_request : Header → Obj → M ℕ
unfolding proposer_decree_request cache_request
proposer_ack_request hdr o = do
  req ← need assert_failed (paxos_request_unpack o)
  pax ← gets (λ s. s)
  if ltb pax.self_id hdr.ph_inum
      then (do
        acc ← need null_deref (acceptor_find req.pr_val.pv_reqid.id pax.alist)
        proposer_decree_part acc.pa_paxid true)
      else (do
        (if request_needs_cached req.pr_val.pv_dkind then modify (cache_request req) else pure tt)
        proposer_decree_request req)

unfoldable pub acceptor_ack_request : ℕ → Header → Obj → M ℕ
unfolding cache_request
acceptor_ack_request source hdr o = do
  req ← need assert_failed (paxos_request_unpack o)
  modify (cache_request req)
  pax ← gets (λ s. s)
  if hdr.ph_inum == pax.self_id then acceptor_refuse source hdr req else pure 0

unfoldable pub paxos_resend : Acceptor → Header → Request → M ℕ
paxos_resend acc hdr req =
    paxos_send acc (request_message (record hdr { ph_opcode = op_resend }) req)

-- The retriever's ID and the value that it asks for.
unfoldable pub retrieve_unpack : Obj → Option (ℕ × Value)
retrieve_unpack (array (cons a (cons b nil))) = elim (paxos_paxid_unpack a) [
  | none ↦ none
  | some paxid ↦ (elim (paxos_value_unpack b) [ none ↦ none | some val ↦ some (paxid, val) ])
]
retrieve_unpack _ = none

unfoldable pub paxos_ack_retrieve : Header → Obj → M ℕ
unfolding retrieve_unpack paxos_resend
paxos_ack_retrieve hdr o = do
  asked ← need assert_failed (retrieve_unpack o)
  assert (request_needs_cached (asked.1).pv_dkind)
  pax ← gets (λ s. s)
  option_case (request_find (asked.1).pv_reqid pax.rcache) (pure 0) (λ req. (do
    acc ← need null_deref (acceptor_find asked.0 pax.alist)
    paxos_resend acc hdr req))

-- The request is unpacked only if we do not have it yet.
unfoldable pub store_resent : Option Request → Obj → M (Unit {0})
unfolding cache_request
store_resent (some req) o = pure tt
store_resent none o = do
  req ← need assert_failed (paxos_request_unpack o)
  modify (cache_request req)

unfoldable pub paxos_ack_resend : Header → Obj → M ℕ
unfolding store_resent
paxos_ack_resend hdr o = do
  pax ← gets (λ s. s)
  option_case (instance_find hdr.ph_inum pax.ilist) (pure 0) (λ inst.
      if inst.pi_cached then pure 0 else (do
        store_resent (request_find inst.pi_val.pv_reqid pax.rcache) o
        paxos_commit inst.pi_hdr.ph_inum))
