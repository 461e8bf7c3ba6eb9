-- ===== src/Reconnect.antt =====
-- libmotmot/src/paxos_reconnect.c but for the objections, which are in Objection.
use motmot.Base.{
  ℕ, ◌+◌, ◌-◌, ◌%◌, Bool, true, false, not, ◌&&◌, List, [], ◌∷◌, ◌++◌, Option, none, some, ◌==◌,
  ltb, leb, inc32, u32_mod, if◌then◌else◌, length,
}
use motmot.Core.{op_decree, op_request, Header, Dkind, dec_null, dec_part, ballot_compare}
use motmot.Session.{
  Acceptor, Instance, Request, Session, continue_ack_redirect, continue_ack_refuse,
  continue_ack_reject,
}
use motmot.SessionLocal.{acceptor_find, instance_find, request_find, instance_init_metadata}
use motmot.Msgpack.{Obj, Objs, nil, cons, as_array}
use motmot.Codec.{dkind_code, paxos_header_unpack, paxos_value_unpack}
use motmot.Util.{
  err_ret, err_accum, header_init, is_proposer, majority, write_instance, deref_instance,
  paxos_broadcast_instance, paxos_send_to_proposer, proposer_paxid,
}
use motmot.Prepare.{is_none, proposer_prepare_by}
use motmot.Ask.{continuation_new}
use motmot.Acceptor.{is_eq}
use motmot.Proposer.{proposer_decree}
use motmot.Request.{request_message}
use motmot.Greet.{paxos_peer_init, attach_peer, paxos_hello}
use motmot.Exec.{
  option_case, M, pure, gets, modify, assert, need, assert_failed, null_deref, dangling,
  call_connect, ◌>>=◌, ◌>>◌,
}
pub mod Nullify

-- DEATH_ADJUSTED, over `unsigned`
unfoldable pub death_adjusted : Session → ℕ → ℕ
death_adjusted pax n = (n + (length pax.alist + u32_mod - pax.live_count)) % u32_mod

-- A redirect of the prepare that is under way.
unfoldable pub count_redirect : Header → M ℕ
unfolding death_adjusted
count_redirect hdr = do
  pax ← gets (λ s. s)
  prep ← need null_deref pax.prep
  let counted = record prep { pp_redirects = inc32 prep.pp_redirects }
  modify (λ s. record s { prep = some counted })
  if leb (majority pax) (death_adjusted pax counted.pp_redirects)
      then (do
        acc ← need null_deref (acceptor_find hdr.ph_inum pax.alist)
        assert (is_none acc.pa_peer)
        k ← continuation_new continue_ack_redirect acc.pa_paxid
        err_ret (call_connect acc.pa_desc k) (pure 0))
      else if ltb counted.pp_acks (majority pax)
          && ((counted.pp_acks + counted.pp_redirects) % u32_mod == pax.live_count)
      then (do modify (λ s. record s { prep = none }); proposer_prepare_by proposer_decree false)
      else pure 0

unfoldable pub proposer_ack_redirect : Header → Obj → M ℕ
unfolding count_redirect
proposer_ack_redirect hdr o = do
  pax ← gets (λ s. s)
  assert (ltb hdr.ph_inum pax.self_id)
  option_case pax.prep (pure 0) (λ prep. (do
    orig_hdr ← need assert_failed (paxos_header_unpack o)
    if is_eq (ballot_compare orig_hdr.ph_ballot prep.pp_ballot)
        then count_redirect hdr
        else pure 0))

unfoldable pub do_continue_ack_redirect : Option ℕ → Acceptor → M ℕ
do_continue_ack_redirect chan acc = do
  pax ← gets (λ s. s)
  assert (ltb acc.pa_paxid pax.self_id)
  if not (is_none acc.pa_peer) then (do assert (not (is_proposer pax)); pure 0) else (do
    let peer = paxos_peer_init chan
    modify (λ s. record s { prep = none })
    modify (attach_peer acc.pa_paxid peer)
    if is_none peer then proposer_prepare_by proposer_decree false else (do
      p ← proposer_paxid
      modify (λ s. if ltb acc.pa_paxid p then record s { proposer = some acc.pa_paxid } else s)
      modify (λ s. record s { idefer = [] })
      paxos_hello (record acc { pa_peer = peer })))

-- `o->via.array.ptr + 1`
unfoldable pub second : Objs → Option Obj
second (cons a (cons b r)) = some b
second _ = none

unfoldable pub acceptor_ack_refuse : Header → Obj → M ℕ
unfolding second
acceptor_ack_refuse hdr o = do
  p ← proposer_paxid
  if leb p hdr.ph_inum then pure 0 else (do
    pax ← gets (λ s. s)
    acc ← need null_deref (acceptor_find hdr.ph_inum pax.alist)
    assert (is_none acc.pa_peer)
    os ← need assert_failed (as_array o)
    v ← need dangling (second os)
    val ← need assert_failed (paxos_value_unpack v)
    k ← continuation_new (continue_ack_refuse (record { pr_val = val; pr_data = [] })) acc.pa_paxid
    err_ret (call_connect acc.pa_desc k) (pure 0))

abbrev or_own : Option Request → Request → Request
or_own none r = r
or_own (some q) r = q

-- The request goes to the acceptor that we reconnected to, as our new proposer.
unfoldable pub resend_request : ℕ → Request → M ℕ
resend_request paxid own = do
  modify (λ s. record s { proposer = some paxid })
  pax ← gets (λ s. s)
  paxos_send_to_proposer (
      request_message (header_init pax op_request paxid)
        (or_own (request_find own.pr_val.pv_reqid pax.rcache) own))

unfoldable pub do_continue_ack_refuse : Request → Option ℕ → Acceptor → M ℕ
unfolding resend_request
do_continue_ack_refuse own chan acc = do
  pax ← gets (λ s. s)
  if is_proposer pax && is_none pax.prep then pure 0 else (do
    let peer = paxos_peer_init chan
    modify (attach_peer acc.pa_paxid peer)
    if is_none peer then pure 0 else (do
      modify (λ s. record s { prep = none; idefer = [] })
      r ← err_accum 0 (paxos_hello (record acc { pa_peer = peer }))
      p ← proposer_paxid
      if ltb acc.pa_paxid p then err_accum r (resend_request acc.pa_paxid own) else pure r))

-- Rejects of a part that is neither committed nor nullified.
unfoldable pub count_reject : Session → Instance → M ℕ
unfolding death_adjusted
count_reject pax inst =
    if leb (majority pax) (death_adjusted pax inst.pi_rejects)
    then (do
      acc ← need null_deref (acceptor_find inst.pi_val.pv_extra pax.alist)
      assert (is_none acc.pa_peer)
      k ← continuation_new (continue_ack_reject inst.pi_hdr.ph_inum) acc.pa_paxid
      err_ret (call_connect acc.pa_desc k) (pure 0))
    else if ltb inst.pi_votes (majority pax)
        && ((inst.pi_votes + inst.pi_rejects) % u32_mod == pax.live_count)
    then paxos_broadcast_instance inst
    else pure 0

unfoldable pub proposer_ack_reject : Header → M ℕ
unfolding count_reject
proposer_ack_reject hdr = do
  pax ← gets (λ s. s)
  assert (is_eq (ballot_compare hdr.ph_ballot pax.ballot))
  inst ← need null_deref (instance_find hdr.ph_inum pax.ilist)
  let counted = record inst { pi_rejects = inc32 inst.pi_rejects }
  modify (write_instance inst.pi_hdr.ph_inum (λ i. record i { pi_rejects = inc32 i.pi_rejects }))
  if inst.pi_committed
      then pure 0
      else if dkind_code inst.pi_val.pv_dkind == 0
      then pure 0
      else (do assert (dkind_code inst.pi_val.pv_dkind == 3); count_reject pax counted)

unfoldable pub nullified : Instance → Instance
nullified inst = record inst {
  pi_hdr = record inst.pi_hdr { ph_opcode = op_decree };
  pi_val = record inst.pi_val { pv_dkind = dec_null; pv_extra = 0 };
}

-- The metadata is reset and the instance sent again.
unfoldable pub redecree_part : ℕ → M ℕ
unfolding instance_init_metadata
redecree_part inum = do
  modify (write_instance inum instance_init_metadata)
  inst ← deref_instance inum
  paxos_broadcast_instance inst

unfoldable pub do_continue_ack_reject : ℕ → Option ℕ → Acceptor → M ℕ
unfolding nullified redecree_part
do_continue_ack_reject inum chan acc = do
  pax ← gets (λ s. s)
  option_case (instance_find inum pax.ilist) (pure 0) (λ inst. (do
    let peer = paxos_peer_init chan
    modify (attach_peer acc.pa_paxid peer)
    err_ret (if is_none peer then pure 0 else paxos_hello (record acc { pa_peer = peer })) (do
      (if is_none peer then pure tt else modify (write_instance inum nullified))
      redecree_part inum)))
