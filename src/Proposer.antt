-- ===== src/Proposer.antt =====
-- libmotmot/src/paxos_proposer.c but for proposer_prepare, and proposer_decree_part of paxos_util.c.
use motmot.Base.{
  ℕ, zero, suc, ◌+◌, ◌-◌, Bool, true, false, not, ◌&&◌, Ordering, List, [], ◌∷◌, ◌++◌, Option, none,
  some, ◌==◌, ltb, leb, inc32, if◌then◌else◌, length, get_last?,
}
use motmot.Core.{Ballot, op_decree, op_commit, Header, Value, dec_null, ballot_compare}
use motmot.Session.{Instance, Ref, null, list_head, at, off, scratch, Session, Prep, zero_instance}
use motmot.SessionLocal.{inum_of, instance_find, instance_init_metadata}
use motmot.Msgpack.{Obj, Objs, nil, cons, as_array}
use motmot.Codec.{paxos_instance_unpack}
use motmot.Util.{
  err_ret, majority, header_init, next_instance, instance_insert_and_upstart, write_instance,
  deref_instance, paxos_broadcast_instance, proposer_decree_part_by,
}
use motmot.Prepare.{is_none}
use motmot.Learn.{paxos_commit, nodes_from}
use motmot.Acceptor.{is_eq}
use motmot.Exec.{
  option_case, M, pure, gets, modify, fail, assert, need, assert_failed, null_deref, dangling,
  off_list, Fault, out_of_fuel, ◌>>=◌, ◌>>◌,
}
pub mod Glb
pub mod Commits
pub mod Rounds
pub mod Ends
pub mod Votes
pub mod Raises
pub mod Adopts
pub mod Settles

unfoldable pub proposer_commit : ℕ → M ℕ
proposer_commit inum = do
  modify
      (write_instance inum (λ i. record i { pi_hdr = record i.pi_hdr { ph_opcode = op_commit } }))
  inst ← deref_instance inum
  err_ret (paxos_broadcast_instance inst) (paxos_commit inum)

-- The instance as `proposer_decree` rewrites it.
unfoldable pub decreed : Session → Instance → Instance
unfolding header_init instance_init_metadata
decreed pax inst =
    instance_init_metadata (record inst { pi_hdr = header_init pax op_decree (next_instance pax) })

unfoldable pub proposer_decree : Instance → M ℕ
proposer_decree inst = do
  new ← gets (λ s. decreed s inst)
  modify (instance_insert_and_upstart new)
  err_ret (paxos_broadcast_instance new) (do
    m ← gets majority
    if leb m new.pi_votes then proposer_commit new.pi_hdr.ph_inum else pure 0)

unfoldable pub proposer_decree_part : ℕ → Bool → M ℕ
unfolding proposer_decree_part_by
proposer_decree_part = proposer_decree_part_by proposer_decree

unfoldable pub proposer_ack_accept : Header → M ℕ
proposer_ack_accept hdr = do
  pax ← gets (λ s. s)
  assert (is_eq (ballot_compare hdr.ph_ballot pax.ballot))
  inst ← need null_deref (instance_find hdr.ph_inum pax.ilist)
  let inum = inst.pi_hdr.ph_inum
  modify (write_instance inum (λ i. record i { pi_votes = inc32 i.pi_votes }))
  if inst.pi_committed
      then pure 0
      else if leb (majority pax) (inc32 inst.pi_votes)
      then proposer_commit inum
      else pure 0

-- The loop of `get_instance_glb`, with `prev`.
unfoldable pub glb_loop : ℕ → Option Instance → List Instance → Option Instance
glb_loop inum prev [] = prev
glb_loop inum prev (it ∷ l) =
    let rest = glb_loop inum (some it) l in if ltb inum it.pi_hdr.ph_inum then prev else rest

-- The nodes from the iterator on, and the fault where the first is above the number. From an iterator that is off the
-- ilist, the search follows `le_next` to the ilist; if its result is itself off the ilist, the model stops.
unfoldable pub glb_from_ref : Fault → Ref → ℕ → M Instance
unfolding glb_loop
glb_from_ref e null inum = fail null_deref
glb_from_ref e list_head inum = fail dangling
glb_from_ref e (at n) inum = do
  _ ← deref_instance n
  nodes ← gets (λ s. nodes_from n s.ilist)
  need e (glb_loop inum none nodes)
glb_from_ref e (off i r) inum =
    let rest = glb_from_ref off_list r inum in if ltb inum i.pi_hdr.ph_inum then fail e else rest
glb_from_ref e (scratch i r) inum =
    let rest = glb_from_ref off_list r inum in if ltb inum i.pi_hdr.ph_inum then fail e else rest

-- `get_instance_glb` and the `assert` on its result
unfoldable pub get_instance_glb : Ref → ℕ → M Instance
unfolding glb_from_ref
get_instance_glb iter inum = glb_from_ref assert_failed iter inum

-- LIST_INSERT_AFTER the node with a given number.
unfoldable pub insert_after : ℕ → Instance → List Instance → List Instance
insert_after n inst [] = []
insert_after n inst (x ∷ l) = if inum_of x == n then x ∷ inst ∷ l else x ∷ insert_after n inst l

unfoldable pub insert_after_and_upstart : ℕ → Instance → Session → Session
unfolding insert_after
insert_after_and_upstart n inst pax = record pax {
  ilist = insert_after n inst pax.ilist;
  istart = if inst.pi_hdr.ph_inum == pax.ihole then at inst.pi_hdr.ph_inum else pax.istart;
}

-- The pointers that outlive the loop over the votes: `pax->istart` and `pp_istart`.
unfoldable pub with_refs : (Ref → Ref) → Session → Session
with_refs f pax = record pax {
  istart = f pax.istart;
  prep = elim pax.prep [ none ↦ none | some pp ↦ some (record pp { pp_istart = f pp.pp_istart }) ];
}

-- After a switch at the number `n`: the scratch node is on the ilist, and the old node is the scratch node;
-- its `le_next` is the new one.
unfoldable pub swapped : Instance → ℕ → Ref → Ref
swapped old n null = null
swapped old n list_head = list_head
swapped old n (at m) = if m == n then scratch old (at n) else at m
swapped old n (off i r) = off i (swapped old n r)
swapped old n (scratch i r) = at n

-- After the scratch node has been inserted with the number `n`.
unfoldable pub relisted : ℕ → Ref → Ref
relisted n null = null
relisted n list_head = list_head
relisted n (at m) = at m
relisted n (off i r) = off i (relisted n r)
relisted n (scratch i r) = at n

-- After a vote has been unpacked into the scratch node.
unfoldable pub unpacked : Instance → Ref → Ref
unpacked v null = null
unpacked v list_head = list_head
unpacked v (at m) = at m
unpacked v (off i r) = off i (unpacked v r)
unpacked v (scratch i r) = scratch v r

-- After the loop.
unfoldable pub left_off : Ref → Ref
left_off null = null
left_off list_head = list_head
left_off (at m) = at m
left_off (off i r) = off i (left_off r)
left_off (scratch i r) = off i r

-- The switch of a new node for the old one that has its number.
unfoldable pub switch_in : Instance → Instance → Session → Session
unfolding with_refs swapped
switch_in old inst pax =
    let n = inst.pi_hdr.ph_inum in with_refs (swapped old n) (write_instance n (λ _. inst) pax)

-- The insertion of a vote; the next one has a new scratch node.
unfoldable pub insert_vote : ℕ → Instance → Session → Session
unfolding with_refs relisted insert_after_and_upstart
insert_vote n inst pax =
    with_refs (relisted inst.pi_hdr.ph_inum) (insert_after_and_upstart n inst pax)

-- One vote of a promise; returns the iterator.
unfoldable pub promise_vote : Ref → Instance → M Ref
unfolding with_refs unpacked
promise_vote iter inst = do
  modify (with_refs (unpacked inst))
  it ← get_instance_glb iter inst.pi_hdr.ph_inum
  if ltb it.pi_hdr.ph_inum inst.pi_hdr.ph_inum
      then (do modify (insert_vote it.pi_hdr.ph_inum inst); pure (at it.pi_hdr.ph_inum))
      else if not it.pi_committed
          && (elim (ballot_compare inst.pi_hdr.ph_ballot it.pi_hdr.ph_ballot) [
            | Ordering.gt ↦ true
            | Ordering.lt ↦ false
            | Ordering.eq ↦ false
          ])
      then (do modify (switch_in it inst); pure (at it.pi_hdr.ph_inum))
      else pure (at it.pi_hdr.ph_inum)

unfoldable pub promise_votes : Ref → Objs → M (Unit {0})
unfolding with_refs left_off
promise_votes iter nil = modify (with_refs left_off)
promise_votes iter (cons p ps) = do
  vote ← need assert_failed (paxos_instance_unpack p)
  iter' ←
      promise_vote iter
        (record vote { pi_committed = false; pi_cached = false; pi_learned = false })
  promise_votes iter' ps

-- The header and the metadata that both paths of the redecree loop give an instance.
unfoldable pub redecreed : Session → Instance → Instance
unfolding header_init instance_init_metadata
redecreed pax inst =
    instance_init_metadata (record inst { pi_hdr = header_init pax op_decree inst.pi_hdr.ph_inum })

unfoldable pub redecree : ℕ → M ℕ
unfolding redecreed
redecree inum = do
  pax ← gets (λ s. s)
  modify (write_instance inum (redecreed pax))
  inst ← deref_instance inum
  paxos_broadcast_instance inst

-- A null decree for a number that nobody in the quorum has heard of, after `++pax->req_id`.
unfoldable pub null_instance : Session → ℕ → Instance
null_instance pax inum = record zero_instance {
  pi_hdr = record zero_instance.pi_hdr { ph_inum = inum };
  pi_val = record {
    pv_dkind = dec_null;
    pv_reqid = record { id = pax.self_id; gen = pax.req_id };
    pv_extra = 0;
  };
}

-- It goes after the node `n`.
unfoldable pub insert_null : ℕ → ℕ → M (Unit {0})
insert_null n inum = do
  modify (λ s. record s { req_id = inc32 s.req_id })
  pax ← gets (λ s. s)
  modify (insert_after_and_upstart n (null_instance pax inum))

-- The loop that decrees for each instance without a commit, with the fuel that is left.
unfoldable pub redecree_from : ℕ → Ref → ℕ → M ℕ
unfolding redecree insert_null
redecree_from zero iter inum = fail out_of_fuel
redecree_from (suc fuel) iter inum = do
  it ← get_instance_glb iter inum
  ilist ← gets (λ s. s.ilist)
  last ← need dangling (get_last? ilist)
  let n = it.pi_hdr.ph_inum
  if ltb n inum
      then (if n == last.pi_hdr.ph_inum then pure 0 else (do
        insert_null n inum
        err_ret (redecree inum) (redecree_from fuel (at n) (inc32 inum))))
      else if not it.pi_committed
      then err_ret (redecree n) (redecree_from fuel (at n) (inc32 inum))
      else redecree_from fuel (at n) (inc32 inum)

-- `LIST_WHILE_FIRST(inst, &pax->idefer)`
unfoldable pub decree_deferred : ℕ → M ℕ
decree_deferred zero = do
  l ← gets (λ s. s.idefer)
  elim l [ [] ↦ pure 0 | inst ∷ rest ↦ fail out_of_fuel ]
decree_deferred (suc fuel) = do
  l ← gets (λ s. s.idefer)
  elim l [
    | [] ↦ pure 0
    | inst ∷ rest ↦ (do
      modify (λ s. record s { idefer = rest })
      err_ret (proposer_decree inst) (decree_deferred fuel))
  ]

-- One round for each number from the hole to past the last instance.
unfoldable pub redecree_fuel : Session → ℕ
redecree_fuel pax = elim (get_last? pax.ilist) [
  | none ↦ 1
  | some i ↦ suc (i.pi_hdr.ph_inum + 1 - pax.ihole)
]

-- A majority has promised.
unfoldable pub finish_prepare : Prep → M ℕ
unfolding redecree_from decree_deferred redecree_fuel
finish_prepare prep = do
  modify (λ s. record s { ballot = prep.pp_ballot })
  pax ← gets (λ s. s)
  err_ret (redecree_from (redecree_fuel pax) prep.pp_istart pax.ihole) (do
    modify (λ s. record s { prep = none })
    n ← gets (λ s. length s.idefer)
    decree_deferred n)

unfoldable pub proposer_ack_promise : Header → Obj → M ℕ
unfolding promise_votes promise_vote finish_prepare
proposer_ack_promise hdr o = do
  pax ← gets (λ s. s)
  option_case pax.prep (pure 0) (λ prep.
      if not (is_eq (ballot_compare prep.pp_ballot hdr.ph_ballot)) then pure 0 else (do
        votes ← need assert_failed (as_array o)
        promise_votes prep.pp_istart votes
        after ← gets (λ s. s.prep)
        prep' ← need null_deref after
        let acked = record prep' { pp_acks = inc32 prep'.pp_acks }
        modify (λ s. record s { prep = some acked })
        m ← gets majority
        if ltb acked.pp_acks m then pure 0 else finish_prepare acked))
