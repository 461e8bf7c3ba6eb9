-- ===== src/Learn.antt =====
-- libmotmot/src/paxos_learn.c: commits, and learning them in the order of their numbers.
use motmot.Base.{
  ℕ, true, not, ◌&&◌, List, [], ◌∷◌, Option, none, some, ◌==◌, leb, inc32, dec32, if◌then◌else◌,
  get_last?,
}
use motmot.Core.{Dkind, dec_null, dec_chat, dec_join, dec_part, dec_kill, dec_other}
use motmot.Session.{Acceptor, Instance, Request, Ref, null, list_head, at, off, scratch, Session}
use motmot.SessionLocal.{paxid_of, inum_of, acceptor_find, acceptor_insert, request_find, remove_at}
use motmot.Util.{
  err_ret, is_proposer, reset_proposer, request_needs_cached, deref_instance, write_instance,
  proposer_paxid,
}
use motmot.Prepare.{paxos_end, proposer_prepare, is_none, destroy_peer}
use motmot.Ask.{paxos_retrieve, acceptor_retry, proposer_welcome}
use motmot.Exec.{
  option_case, Event, M, pure, gets, modify, emit, fail, assert, need, null_deref, dangling,
  off_list, learn_chat, learn_join, learn_part, ◌>>=◌, ◌>>◌,
}
pub mod Level
pub mod Nodes
pub mod Order

unfoldable pub emit_all : List Event → M (Unit {0})
emit_all [] = pure tt
emit_all (e ∷ l) = do emit e; emit_all l

unfoldable pub learn_chat_value : Option Request → M ℕ
learn_chat_value req = do
  q ← need null_deref req
  pax ← gets (λ s. s)
  let sender = acceptor_find q.pr_val.pv_reqid.id pax.alist
  assert (not (is_none sender))
  acc ← need null_deref sender
  emit (learn_chat q.pr_data acc.pa_desc pax.client_data)
  pure 0

-- `acc` before its identity is copied in: a deferred hello, or a new acceptor.
unfoldable pub joined : ℕ → M Acceptor
joined inum = do
  pax ← gets (λ s. s)
  option_case (acceptor_find inum pax.adefer)
      (pure (record { pa_paxid = inum; pa_peer = none; pa_desc = [] }))
      (λ acc. (do
        modify (λ s. record s {
          adefer = remove_at paxid_of acc.pa_paxid s.adefer;
          live_count = inc32 s.live_count;
        })
        pure acc))

-- The descriptor is written to the new element whether or not the insertion takes it.
unfoldable pub learn_join_value : ℕ → Option Request → M ℕ
unfolding joined
learn_join_value inum req = do
  acc' ← joined inum
  q ← need null_deref req
  let acc = record acc' { pa_desc = q.pr_data }
  modify (λ s. record s { alist = (acceptor_insert acc s.alist).0 })
  pax ← gets (λ s. s)
  (if is_proposer pax then (do _ ← proposer_welcome acc; pure tt) else pure tt)
  emit (learn_join q.pr_data acc.pa_desc pax.client_data)
  pure 0

-- What follows when the parted acceptor is not ourselves.
unfoldable pub part_acceptor : Acceptor → M ℕ
part_acceptor acc = do
  modify (λ s. record s {
    alist = remove_at paxid_of acc.pa_paxid s.alist;
    live_count = if is_none acc.pa_peer then s.live_count else dec32 s.live_count;
  })
  p ← proposer_paxid
  r ←
      (if acc.pa_paxid == p
        then (do
          modify reset_proposer
          pax ← gets (λ s. s)
          if is_proposer pax then proposer_prepare true else pure 0)
        else pure 0)
  emit_all (destroy_peer acc.pa_peer)
  pure r

unfoldable pub learn_part_value : ℕ → M ℕ
unfolding part_acceptor
learn_part_value target = do
  pax ← gets (λ s. s)
  option_case (acceptor_find target pax.alist) (pure 0) (λ acc. (do
    emit (learn_part acc.pa_desc acc.pa_desc pax.client_data)
    if acc.pa_paxid == pax.self_id then paxos_end else part_acceptor acc))

unfoldable pub learn_value : Instance → Option Request → Dkind → M ℕ
unfolding learn_chat_value learn_join_value learn_part_value
learn_value inst req dec_null = pure 0
learn_value inst req dec_chat = learn_chat_value req
learn_value inst req dec_join = learn_join_value inst.pi_hdr.ph_inum req
learn_value inst req dec_part = learn_part_value inst.pi_val.pv_extra
learn_value inst req dec_kill = learn_part_value inst.pi_val.pv_extra
learn_value inst req (dec_other n) = pure 0

unfoldable pub paxos_learn : Instance → Option Request → M ℕ
paxos_learn inst req = do
  modify (write_instance inst.pi_hdr.ph_inum (λ i. record i { pi_learned = true }))
  learn_value inst req inst.pi_val.pv_dkind

-- The request of an instance whose `pi_cached` holds.
unfoldable pub request_for : Instance → M (Option Request)
request_for it =
    if request_needs_cached it.pi_val.pv_dkind
    then (do
      req ← gets (λ s. request_find it.pi_val.pv_reqid s.rcache)
      assert (not (is_none req))
      pure req)
    else pure none

-- LIST_LAST
unfoldable pub last_ref : List Instance → Ref
last_ref l = elim (get_last? l) [ none ↦ list_head | some i ↦ at i.pi_hdr.ph_inum ]

unfoldable pub set_istart : Ref → Session → Session
set_istart p s = record s { istart = p }

-- One round of the loop that learns contiguous commits: the node before it, and the rounds to come.
unfoldable pub learn_round : Ref → Instance → M ℕ → M ℕ
learn_round prev it rest = do
  hole ← gets (λ s. s.ihole)
  if not (it.pi_hdr.ph_inum == hole)
      then (do modify (set_istart prev); pure 0)
      else if not (it.pi_committed && it.pi_cached)
      then (do modify (set_istart (at it.pi_hdr.ph_inum)); pure 0)
      else (do
        assert (not it.pi_learned)
        req ← request_for it
        err_ret (paxos_learn it req) (do modify (λ s. record s { ihole = inc32 s.ihole }); rest))

-- The loop, over the nodes that are left, with the one before them.
unfoldable pub learn_from : Ref → List Instance → M ℕ
unfolding learn_round
learn_from prev [] = do modify (λ s. record s { istart = last_ref s.ilist }); pure 0
learn_from prev (it ∷ l) = learn_round prev it (learn_from (at it.pi_hdr.ph_inum) l)

-- The nodes from the one with a given number on.
unfoldable pub nodes_from : ℕ → List Instance → List Instance
nodes_from n [] = []
nodes_from n (x ∷ l) = if inum_of x == n then x ∷ l else nodes_from n l

-- The instance that a pointer of the session points to.
unfoldable pub deref : Ref → M Instance
deref null = fail null_deref
deref list_head = fail dangling
deref (at n) = deref_instance n
deref (off i r) = pure i
deref (scratch i r) = pure i

abbrev pub tail : List Instance → List Instance
tail [] = []
tail (x ∷ l) = l

-- The nodes from `istart` on, where it is the hole, and else from its successor on.
unfoldable pub start_nodes : ℕ → Instance → List Instance → List Instance
unfolding nodes_from
start_nodes hole start l =
    let nodes = nodes_from start.pi_hdr.ph_inum l in
    if start.pi_hdr.ph_inum == hole then nodes else tail nodes

-- `assert` on the number of the node at the front; at the end of the list there is none to read.
unfoldable pub assert_front : ℕ → List Instance → M (Unit {0})
assert_front hole [] = fail dangling
assert_front hole (x ∷ l) = assert (inum_of x == hole)

-- From nodes of the ilist on, of which the first is to be the hole; the pointer before them.
unfoldable pub learn_nodes : Ref → List Instance → M ℕ
unfolding assert_front learn_from
learn_nodes prev nodes = do
  hole ← gets (λ s. s.ihole)
  assert_front hole nodes
  modify (set_istart (at hole))
  learn_from prev nodes

-- The loop at a node that is off the ilist and holds the hole: it stops there if the node is not ready.
unfoldable pub learn_off : Instance → Ref → M ℕ
learn_off i r = do
  hole ← gets (λ s. s.ihole)
  assert (i.pi_hdr.ph_inum == hole)
  if not (i.pi_committed && i.pi_cached)
      then (do modify (set_istart (off i r)); pure 0)
      else fail off_list

-- From the successor of a node that is off the ilist on.
unfoldable pub learn_next : Ref → M ℕ
unfolding learn_nodes learn_off
learn_next null = fail null_deref
learn_next list_head = fail dangling
learn_next (at n) = do l ← gets (λ s. s.ilist); learn_nodes (at n) (nodes_from n l)
learn_next (off i r) = learn_off i r
learn_next (scratch i r) = learn_off i r

-- By where `istart` points, and the instance there.
unfoldable pub learn_start : Ref → Instance → M ℕ
unfolding start_nodes learn_nodes learn_off learn_next
learn_start (off i r) start = do
  hole ← gets (λ s. s.ihole)
  if i.pi_hdr.ph_inum == hole then learn_off i r else learn_next r
learn_start (scratch i r) start = do
  hole ← gets (λ s. s.ihole)
  if i.pi_hdr.ph_inum == hole then learn_off i r else learn_next r
learn_start null start = fail null_deref
learn_start list_head start = fail dangling
learn_start (at n) start = do
  pax ← gets (λ s. s)
  learn_nodes (at n) (start_nodes pax.ihole start pax.ilist)

unfoldable pub learn_contiguous : M ℕ
unfolding learn_start
learn_contiguous = do p ← gets (λ s. s.istart); start ← deref p; learn_start p start

-- We cannot learn past the hole.
unfoldable pub wait_for_hole : M ℕ
wait_for_hole = do
  pax ← gets (λ s. s)
  if is_proposer pax then pure 0 else (do
    start ← deref pax.istart
    if (start.pi_hdr.ph_inum == pax.ihole) && start.pi_committed
        then (do assert (not start.pi_cached); pure 0)
        else acceptor_retry pax.ihole)

unfoldable pub commit_cached : ℕ → M ℕ
commit_cached inum = do
  modify (write_instance inum (λ i. record i { pi_cached = true }))
  hole ← gets (λ s. s.ihole)
  assert (leb hole inum)
  if inum == hole then learn_contiguous else wait_for_hole

unfoldable pub paxos_commit : ℕ → M ℕ
paxos_commit inum = do
  modify (write_instance inum (λ i. record i { pi_committed = true }))
  inst ← deref_instance inum
  req ← gets (λ s. request_find inst.pi_val.pv_reqid s.rcache)
  if request_needs_cached inst.pi_val.pv_dkind && is_none req
      then paxos_retrieve inst
      else commit_cached inum
