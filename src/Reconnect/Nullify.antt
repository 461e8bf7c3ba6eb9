-- ===== src/Reconnect/Nullify.antt =====
-- do_continue_ack_reject of libmotmot/src/paxos_reconnect.c on an instance that is committed: the
-- continuation runs after the client has connected, and the part may have been committed meanwhile.
use motmot.Base.{ℕ, ◌≡◌, refl, subst, ◌∙◌, true, false, none, some}
use motmot.Session.{Acceptor, Instance}
use motmot.SessionLocal.{inum_of, get_at, instance_find, instance_init_metadata}
use motmot.SessionLocal.Tables.{Increasing, get_at-set_at_self, find_rev-eq-get_at}
use motmot.Util.{err_ret, write_acceptor, write_instance, deref_instance, paxos_broadcast_instance}
use motmot.Greet.{paxos_peer_init, attach_peer}
use motmot.Reconnect.{redecree_part, do_continue_ack_reject}
use motmot.Util.Quiet.{
  Quiet, Holds-Quiet, quiet_rules, Quiet-deref_instance, Quiet-broadcast_instance,
}
use motmot.Exec.{World, done, pure, gets, modify, option_case, ◌>>=◌}
use motmot.Exec.Moves.{Moves, Holds}

abbrev Uncommitted : ℕ → World → Type 0
Uncommitted inum w =
    (j : Instance) × (get_at inum_of inum w.pax.ilist ≡ some j) × (j.pi_committed ≡ false)

Quiet-send_again : (inum : ℕ) → Moves Quiet (deref_instance inum >>= paxos_broadcast_instance)
Quiet-send_again inum = search (quiet_rules, Quiet-deref_instance, Quiet-broadcast_instance) depth 8

redecree_part-Uncommitted :
    (inum : ℕ) (i : Instance) (w : World)
    → get_at inum_of inum w.pax.ilist ≡ some i
    → Holds (Uncommitted inum) (redecree_part inum w)
unfolding redecree_part ◌>>=◌ modify write_instance instance_init_metadata
redecree_part-Uncommitted inum i w g =
    let v : World = record w { pax = write_instance inum instance_init_metadata w.pax } in
    Holds-Quiet
      (λ s. (j : Instance) × (get_at inum_of inum s.ilist ≡ some j) × (j.pi_committed ≡ false)) v _
      (
        instance_init_metadata i,
        get_at-set_at_self inum_of inum instance_init_metadata w.pax.ilist i (λ x h. h) g,
        refl,
      )
      ((Quiet-send_again inum).run v)

continue_ack_reject-Uncommitted :
    (inum : ℕ) (acc : Acceptor) (i : Instance) (w : World)
    → instance_find inum w.pax.ilist ≡ some i
    → get_at inum_of inum w.pax.ilist ≡ some i
    → Holds (Uncommitted inum) (do_continue_ack_reject inum none acc w)
unfolding do_continue_ack_reject ◌>>=◌ gets modify pure err_ret option_case attach_peer
    paxos_peer_init redecree_part write_acceptor
continue_ack_reject-Uncommitted inum acc i w f g =
    let v : World = record w { pax = attach_peer acc.pa_paxid (paxos_peer_init none) w.pax } in
    simp f (redecree_part-Uncommitted inum i v g)

-- Where the client has failed to connect to the acceptor, the continuation of a reject takes back
-- the commit of an instance that is committed by then: when it returns, the instance is in the
-- ilist, and is not committed.
pub do_continue_ack_reject-uncommits :
    (inum r : ℕ) (acc : Acceptor) (i : Instance) (w w' : World)
    → Increasing inum_of w.pax.ilist
    → get_at inum_of inum w.pax.ilist ≡ some i
    → i.pi_committed ≡ true
    → do_continue_ack_reject inum none acc w ≡ done r w'
    → (j : Instance) × (get_at inum_of inum w'.pax.ilist ≡ some j) × (j.pi_committed ≡ false)
unfolding instance_find
do_continue_ack_reject-uncommits inum r acc i w w' s g c e = subst (Holds (Uncommitted inum)) e (
    continue_ack_reject-Uncommitted inum acc i w (find_rev-eq-get_at inum_of inum w.pax.ilist s ∙ g)
      g)
