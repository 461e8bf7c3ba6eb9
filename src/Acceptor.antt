-- ===== src/Acceptor.antt =====
-- libmotmot/src/paxos_acceptor.c. `source` is the peer that sent the message and `o` its payload.
use motmot.Base.{
  ℕ, ◌+◌, Bool, true, false, not, ◌&&◌, ◌||◌, Ordering, List, [], ◌∷◌, ◌++◌, Option, none, some,
  ◌==◌, leb, if◌then◌else◌,
}
use motmot.Core.{Ballot, op_promise, op_accept, Header, Dkind, dec_part, Value, ballot_compare}
use motmot.Session.{Acceptor, Instance, Session, zero_instance}
use motmot.SessionLocal.{paxid_of, acceptor_find, instance_find}
use motmot.Msgpack.{Tok, Obj, paxos_payload_begin_array}
use motmot.Codec.{dkind_code, paxos_header_pack, paxos_instance_pack, paxos_value_unpack}
use motmot.Util.{
  header_message, paxos_send_to_proposer, instance_insert_and_upstart, write_instance,
  deref_acceptor, proposer_paxid,
}
use motmot.Prepare.{is_none}
use motmot.Learn.{paxos_commit}
use motmot.Objection.{acceptor_redirect, acceptor_reject}
use motmot.Exec.{
  option_case, M, pure, gets, modify, assert, need, assert_failed, null_deref, ◌>>=◌, ◌>>◌,
}
pub mod Ballots
pub mod Accepts
pub mod Promises

-- `cmp <= 0`, `cmp == 0`, `cmp >= 0`
abbrev pub is_le : Ordering → Bool
is_le Ordering.gt = false
is_le Ordering.lt = true
is_le Ordering.eq = true

abbrev pub is_eq : Ordering → Bool
is_eq Ordering.eq = true
is_eq Ordering.lt = false
is_eq Ordering.gt = false

abbrev pub is_ge : Ordering → Bool
is_ge Ordering.lt = false
is_ge Ordering.eq = true
is_ge Ordering.gt = true

-- `pa_peer == source`
abbrev pub peer_is : Option ℕ → ℕ → Bool
peer_is none p = false
peer_is (some q) p = q == p

-- The loop from the end of the ilist: how many nodes it counts, and the nodes from the one at which
-- it breaks.
unfoldable pub promise_scan : ℕ → List Instance → ℕ × Option (List Instance)
promise_scan inum [] = (0, none)
promise_scan inum (it ∷ l) =
    let (count, start) = promise_scan inum l in
    elim start [
      | some nodes ↦ (count, some nodes)
      | none ↦ (count + 1, if leb it.pi_hdr.ph_inum inum then some (it ∷ l) else none)
    ]

unfoldable pub pack_instances : List Instance → List Tok
pack_instances [] = []
pack_instances (it ∷ l) = paxos_instance_pack it ++ pack_instances l

-- The payload after the header; a loop that ran off the front leaves no node to pack.
unfoldable pub promise_payload : ℕ → List Instance → List Tok
unfolding promise_scan pack_instances
promise_payload inum ilist =
    let (count, start) = promise_scan inum ilist in
    paxos_payload_begin_array count
    ++ (elim start [ none ↦ [] | some nodes ↦ pack_instances nodes ])

unfoldable pub acceptor_promise : Header → M ℕ
acceptor_promise hdr = do
  modify (λ s. record s { ballot = hdr.ph_ballot; gen_high = hdr.ph_ballot.gen })
  ilist ← gets (λ s. s.ilist)
  paxos_send_to_proposer (
      paxos_payload_begin_array 2
      ++ (paxos_header_pack (record hdr { ph_opcode = op_promise })
          ++ promise_payload hdr.ph_inum ilist))

-- The second operand of `||` is evaluated only if the first is false.
unfoldable pub acceptor_ack_prepare : ℕ → Header → M ℕ
acceptor_ack_prepare source hdr = do
  pax ← gets (λ s. s)
  if is_le (ballot_compare hdr.ph_ballot pax.ballot) then acceptor_redirect source hdr else (do
    p ← proposer_paxid
    proposer ← deref_acceptor p
    if not (peer_is proposer.pa_peer source)
        then acceptor_redirect source hdr
        else acceptor_promise hdr)

unfoldable pub acceptor_accept : Header → M ℕ
acceptor_accept hdr = paxos_send_to_proposer (header_message (record hdr { ph_opcode = op_accept }))

-- The instance that a decree or a commit allocates.
abbrev pub fresh_instance : Header → Value → Instance
fresh_instance hdr val = record zero_instance { pi_hdr = hdr; pi_val = val }

-- The asserted part of two values being equal.
unfoldable pub same_decree : Value → Value → Bool
unfolding dkind_code
same_decree x y =
    (dkind_code x.pv_dkind == dkind_code y.pv_dkind)
    && ((x.pv_reqid.id == y.pv_reqid.id) && (x.pv_reqid.gen == y.pv_reqid.gen))

-- A decree for an instance that we have.
unfoldable pub accept_over : Header → Value → Instance → M ℕ
unfolding same_decree
accept_over hdr val inst =
    if inst.pi_committed
    then (do assert (same_decree inst.pi_val val); acceptor_accept hdr)
    else if is_ge (ballot_compare hdr.ph_ballot inst.pi_hdr.ph_ballot)
    then (do
      modify (write_instance inst.pi_hdr.ph_inum (λ i. record i { pi_hdr = hdr; pi_val = val }))
      acceptor_accept hdr)
    else pure 0

-- The decree is no part that we reject.
unfoldable pub accept_decree : Header → Value → M ℕ
unfolding accept_over
accept_decree hdr val = do
  pax ← gets (λ s. s)
  option_case (instance_find hdr.ph_inum pax.ilist)
      ((do modify (instance_insert_and_upstart (fresh_instance hdr val)); acceptor_accept hdr))
      (accept_over hdr val)

-- `val.pv_dkind == DEC_PART` and the target's peer is not NULL; no such acceptor is a NULL read.
unfoldable pub rejects_part : Value → Dkind → M Bool
rejects_part val dec_part = do
  target ← gets (λ s. acceptor_find val.pv_extra s.alist)
  acc ← need null_deref target
  pure (not (is_none acc.pa_peer))
rejects_part val _ = pure false

unfoldable pub acceptor_ack_decree : Header → Obj → M ℕ
unfolding accept_decree rejects_part
acceptor_ack_decree hdr o = do
  pax ← gets (λ s. s)
  if not (is_eq (ballot_compare hdr.ph_ballot pax.ballot)) then pure 0 else (do
    p ← proposer_paxid
    assert (p == pax.ballot.id)
    val ← need assert_failed (paxos_value_unpack o)
    rejects ← rejects_part val val.pv_dkind
    if rejects then acceptor_reject hdr else accept_decree hdr val)

-- The value of a commit is unpacked into the instance, and committed.
unfoldable pub commit_value : ℕ → Obj → M ℕ
commit_value inum o = do
  val ← need assert_failed (paxos_value_unpack o)
  modify (write_instance inum (λ i. record i { pi_val = val }))
  paxos_commit inum

-- An instance that we never saw decreed is inserted with the commit's header; it is not committed.
unfoldable pub acceptor_ack_commit : Header → Obj → M ℕ
acceptor_ack_commit hdr o = do
  pax ← gets (λ s. s)
  option_case (instance_find hdr.ph_inum pax.ilist)
      ((do
        modify (instance_insert_and_upstart (record zero_instance { pi_hdr = hdr }))
        commit_value hdr.ph_inum o))
      (λ inst. if inst.pi_committed then pure 0 else commit_value inst.pi_hdr.ph_inum o)
