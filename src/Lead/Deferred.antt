-- ===== src/Lead/Deferred.antt =====
-- The loop over the deferred instances (proposer_ack_promise of libmotmot/src/paxos_proposer.c).
use motmot.Base.{
  Bool-cases, inl, inr, ◌==◌, ℕ, zero, suc, ◌≤◌, ◌≡◌, ◌≢◌, refl, List, [], ◌∷◌, length, arith, some,
  if◌then◌else◌,
}
use motmot.Session.{Instance}
use motmot.Util.{err_ret, instance_insert_and_upstart}
use motmot.Proposer.{proposer_commit, proposer_decree, decree_deferred}
use motmot.Exec.{
  M, World, Outcome, done, ended, fault, out_of_fuel, gets, modify, pure, continue, ◌>>=◌,
}
use motmot.Exec.Fuel.{Fueled, Fueled-ne}
use motmot.Lead.{Leads, Leading, Led, Leader, lead_rules}
use motmot.Lead.Sends.{ask_rules, Leader-deref_instance}
use motmot.Lead.Learning.{Leader-write, Leader-commit}

Leader-insert : (i : Instance) → Leader (modify (instance_insert_and_upstart i))
unfolding instance_insert_and_upstart
Leader-insert i = search lead_rules

Leader-proposer_commit : (n : ℕ) → Leader (proposer_commit n)
unfolding proposer_commit
Leader-proposer_commit n =
    search (ask_rules, Leader-write, Leader-deref_instance, Leader-commit) depth 12

Leader-decree : (i : Instance) → Leader (proposer_decree i)
unfolding proposer_decree
Leader-decree i = search (ask_rules, Leader-insert, Leader-proposer_commit) depth 12

-- What follows ERR_RET may use that its first part was a leader's.
Fueled-continue :
    (u : World) (o : Outcome ℕ) (k : M ℕ)
    → Led u o
    → ((v : World) → Leading u v → Fueled (k v))
    → Fueled (continue o (λ r. if r == 0 then k else pure r))
unfolding pure
Fueled-continue u (done r v) k h g = elim (Bool-cases (r == 0)) [
  | inl e ↦ rw e (g v h)
  | inr e ↦ rw e tt
]
Fueled-continue u (ended v) k h g = tt
Fueled-continue u (fault e) k h g = h

Fueled-err_ret :
    (u : World) (m k : M ℕ)
    → Led u (m u)
    → ((v : World) → Leading u v → Fueled (k v))
    → Fueled (err_ret m k u)
unfolding err_ret ◌>>=◌
Fueled-err_ret u m k h g = Fueled-continue u (m u) k h g

-- As many rounds as there are deferred instances.
deferred-Fueled :
    (fuel : ℕ) (l : List Instance) (w : World)
    → Leads w.pax
    → w.pax.idefer ≡ l
    → length l ≤ fuel
    → Fueled (decree_deferred fuel w)
unfolding decree_deferred ◌>>=◌ gets modify pure
deferred-Fueled zero [] w h e n = rw e tt
deferred-Fueled (suc fuel) [] w h e n = rw e tt
deferred-Fueled zero (i ∷ l) w h e n = absurd (omega (arith, n))
deferred-Fueled (suc fuel) (i ∷ l) w h e n =
    let v : World = record w { pax = record w.pax { idefer = l } } in
    let hv : Leads v.pax = record { leader = h.leader } in
    rw e (
      Fueled-err_ret v _ _ ((Leader-decree i).run v hv)
        (λ u s. deferred-Fueled fuel l u s.leads s.idefer (omega (arith, n))))

-- The fuel that the loop over the deferred instances is given is enough: in a session that is its own
-- proposer, the loop never needs more rounds than there are deferred instances at first.
pub decree_deferred-enough_fuel :
    (w : World)
    → w.pax.proposer ≡ some w.pax.self_id
    → decree_deferred (length w.pax.idefer) w ≢ fault out_of_fuel
decree_deferred-enough_fuel w h = Fueled-ne _ (
    deferred-Fueled (length w.pax.idefer) w.pax.idefer w (record { leader = h }) refl (omega arith))
