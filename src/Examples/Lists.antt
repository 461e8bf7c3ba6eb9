-- ===== src/Examples/Lists.antt =====
-- Lookups, insertions, truncations and quorums at concrete lists.
use motmot.Base.{
  ◌≢◌, ◌⊎◌, ℕ, ◌<◌, ◌≤◌, ◌+◌, ◌≡◌, refl, [], ◌∷◌, none, some, arith, length, leb, dec32, u32_mod,
  if◌then◌else◌, All,
}
use motmot.Primitives.{paxid_compare}
use motmot.Container.{find_fwd, find_rev, insert_fwd, insert_rev}
use motmot.Container.Order.{Sorted, paxid_compare-IsOrder}
use motmot.Container.Laws.{
  inserted, find_fwd-insert_fwd, insert_rev-eq-insert_fwd, find_rev-eq-find_fwd, insert_fwd-Sorted,
}
use motmot.Session.{Instance, Session, Sync}
use motmot.SessionLocal.{inum_of, paxid_of, get_at, instance_insert}
use motmot.SessionLocal.Tables.{Increasing}
use motmot.Util.{majority, reset_proposer, next_instance}
use motmot.Util.Quorum.{
  majority-quorums, FirstEligible, reset_proposer-FirstEligible, next_instance-fresh,
}
use motmot.Sync.{ilist_truncate_prefix, sync_point}
use motmot.Sync.Truncate.{get_at-truncate, ack_all, sync_point-ack_all}
use motmot.Proposer.{glb_loop, insert_after, redecree_from, redecree_fuel}
use motmot.Proposer.Rounds.{redecree_from-enough_fuel}
use motmot.Session.{at}
use motmot.Exec.{fault, out_of_fuel}
use motmot.Learn.{nodes_from}
use motmot.Proposer.Glb.{insert_after-eq-instance_insert, glb_loop-greatest_from}
use motmot.State.{State, settle_welcome, session_find}
use motmot.State.Sessions.{sessions_of, settle_welcome-hides}
use motmot.Exec.{done}
use motmot.Examples.{numbered, committed, three_instances, acceptor_session, own_acceptor, in_world}

three-Increasing : Increasing inum_of three_instances
unfolding paxid_compare
three-Increasing = ((refl, (refl, tt)), ((refl, tt), (tt, tt)))

acceptors-Increasing : Increasing paxid_of acceptor_session.alist
unfolding paxid_compare acceptor_session
acceptors-Increasing = ((refl, (refl, tt)), ((refl, tt), (tt, tt)))

find_fwd-insert_fwd_example :
    find_fwd paxid_compare inum_of 3
      (insert_fwd paxid_compare inum_of (numbered 3) three_instances).0
    ≡ inserted
        (paxid_compare 3 3)
        (insert_fwd paxid_compare inum_of (numbered 3) three_instances).1
        (find_fwd paxid_compare inum_of 3 three_instances)
find_fwd-insert_fwd_example =
    find_fwd-insert_fwd paxid_compare-IsOrder inum_of 3 (numbered 3) three_instances
      three-Increasing

insert_rev-eq-insert_fwd_example :
    insert_rev paxid_compare inum_of (numbered 3) three_instances
    ≡ insert_fwd paxid_compare inum_of (numbered 3) three_instances
insert_rev-eq-insert_fwd_example =
    insert_rev-eq-insert_fwd paxid_compare-IsOrder inum_of (numbered 3) three_instances
      three-Increasing

find_rev-eq-find_fwd_example :
    find_rev paxid_compare inum_of 2 three_instances
    ≡ find_fwd paxid_compare inum_of 2 three_instances
find_rev-eq-find_fwd_example =
    find_rev-eq-find_fwd paxid_compare-IsOrder inum_of 2 three_instances three-Increasing

insert_fwd-Sorted_example :
    Sorted paxid_compare inum_of (insert_fwd paxid_compare inum_of (numbered 3) three_instances).0
insert_fwd-Sorted_example =
    insert_fwd-Sorted paxid_compare-IsOrder inum_of (numbered 3) three_instances three-Increasing

get_at-truncate_example :
    (get_at inum_of 4 (ilist_truncate_prefix 2 three_instances []).0
      ≡ (if leb 2 4 then get_at inum_of 4 three_instances else none))
    × Increasing inum_of (ilist_truncate_prefix 2 three_instances []).0
get_at-truncate_example = get_at-truncate 2 4 three_instances [] three-Increasing

abbrev begun : Sync
begun = record { ps_total = 3; ps_acks = 1; ps_skips = 0; ps_last = 0 }

sync_point-ack_all_example :
    (sync_point acceptor_session (ack_all (5 ∷ 2 ∷ []) begun) ≤ dec32 acceptor_session.ihole)
    × All (λ x. sync_point acceptor_session (ack_all (5 ∷ 2 ∷ []) begun) ≤ x) (5 ∷ 2 ∷ [])
sync_point-ack_all_example =
    sync_point-ack_all (5 ∷ 2 ∷ []) acceptor_session begun (omega arith, (omega arith, tt))

majority-quorums_example :
    (length acceptor_session.alist < majority acceptor_session + majority acceptor_session)
    × (0 < length acceptor_session.alist
        → majority acceptor_session ≤ length acceptor_session.alist)
majority-quorums_example = majority-quorums acceptor_session

own_found : get_at paxid_of acceptor_session.self_id acceptor_session.alist ≡ some own_acceptor
unfolding get_at acceptor_session
own_found = refl

reset_proposer-FirstEligible_example :
    (p : ℕ) × (reset_proposer acceptor_session ≡ record acceptor_session { proposer = some p })
    × FirstEligible acceptor_session.self_id p acceptor_session.alist
reset_proposer-FirstEligible_example =
    reset_proposer-FirstEligible acceptor_session own_acceptor acceptors-Increasing own_found

ilist-Increasing : Increasing inum_of acceptor_session.ilist
unfolding acceptor_session
ilist-Increasing = three-Increasing

below_max : All (λ j. inum_of j + 1 < u32_mod) acceptor_session.ilist
unfolding acceptor_session
below_max = (omega arith, (omega arith, (omega arith, tt)))

fourth_found : get_at inum_of 4 acceptor_session.ilist ≡ some (numbered 4)
unfolding get_at acceptor_session
fourth_found = refl

next_instance-fresh_example : 4 < next_instance acceptor_session
next_instance-fresh_example =
    next_instance-fresh acceptor_session 4 (numbered 4) ilist-Increasing below_max fourth_found

glb_of_third : glb_loop (inum_of (numbered 3)) none three_instances ≡ some (committed 2)
unfolding glb_loop
glb_of_third = refl

insert_after-eq-instance_insert_example :
    insert_after 2 (numbered 3) three_instances ≡ (instance_insert (numbered 3) three_instances).0
insert_after-eq-instance_insert_example =
    insert_after-eq-instance_insert (numbered 3) (committed 2) three_instances three-Increasing
      glb_of_third (omega arith)

glb_loop-greatest_from_example :
    ((2 ≤ 3)
      × (it : Instance) × (glb_loop 3 none (nodes_from 2 three_instances) ≡ some it)
      × (get_at inum_of (inum_of it) three_instances ≡ some it)
      × (inum_of it ≤ 3)
      × ((m : ℕ) (i : Instance)
          → get_at inum_of m three_instances ≡ some i
          → m ≤ 3
          → m ≤ inum_of it))
    ⊎ ((3 < 2) × (glb_loop 3 none (nodes_from 2 three_instances) ≡ none))
unfolding get_at
glb_loop-greatest_from_example =
    glb_loop-greatest_from 2 3 (committed 2) three_instances three-Increasing refl

abbrev one_session : State
one_session = record {
  connect = λ d. 0;
  freed_data = 0;
  entered = 0;
  sessions = acceptor_session ∷ [];
  out = [];
}

abbrev welcomed : Session
welcomed = record acceptor_session { session_id = 99 }

id_of_session : acceptor_session.session_id ≡ 77
unfolding acceptor_session
id_of_session = refl

settle_welcome-hides_example :
    (session_find acceptor_session.session_id (acceptor_session ∷ []) ≡ some acceptor_session)
    × (session_find acceptor_session.session_id
          (sessions_of (settle_welcome one_session (done 0 (in_world welcomed))))
        ≡ none)
settle_welcome-hides_example =
    settle_welcome-hides one_session acceptor_session [] 0 (in_world welcomed) refl
      (λ h. omega (arith, id_of_session, h)) (omega (arith, id_of_session))

redecree_from-enough_fuel_example :
    redecree_from
      (redecree_fuel acceptor_session)
      (at 2)
      acceptor_session.ihole
      (in_world acceptor_session)
    ≢ fault out_of_fuel
redecree_from-enough_fuel_example =
    redecree_from-enough_fuel (at 2) (in_world acceptor_session) ilist-Increasing below_max
