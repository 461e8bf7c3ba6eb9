-- ===== src/Proposer/Commits.antt =====
-- What a commit by the proposer leads to (proposer_commit of libmotmot/src/paxos_proposer.c).
use motmot.Base.{
  ℕ, ◌≡◌, refl, sym, subst, ap, ◌∙◌, true, false, inl, inr, ◌==◌, ◌&&◌, eq-of-==, Option, none,
  some, if◌then◌else◌,
}
use motmot.Core.{op_commit}
use motmot.Session.{Instance}
use motmot.SessionLocal.{inum_of, get_at, set_at, request_find}
use motmot.SessionLocal.Tables.{Increasing, set_at-Increasing, get_at-set_at_self}
use motmot.Util.{
  err_ret, write_instance, deref_instance, paxos_broadcast_instance, request_needs_cached,
}
use motmot.Util.Quiet.{Quiet, Quiet-broadcast_instance}
use motmot.Prepare.{is_none}
use motmot.Ask.{paxos_retrieve}
use motmot.Learn.{commit_cached, paxos_commit}
use motmot.Proposer.{proposer_commit}
use motmot.Exec.{M, World, Outcome, done, ended, fault, gets, pure, ◌>>=◌}
use motmot.Exec.Returns.{
  bind-done, modify-done, gets-done, need-done, need-keeps, if-done, pure-done, after,
}
use motmot.Exec.Moves.{Moves, Moves-bind}
use motmot.Stable.{Stays, Stays-IsPath}
use motmot.Stable.Sends.{ask_rules, Stays-deref_instance, Stays-retrieve}
use motmot.Stable.Learning.{Stays-commit_cached}

abbrev pub marked : Instance → Instance
marked i = record i { pi_committed = true }

-- What follows the mark.
abbrev after_mark : ℕ → M ℕ
after_mark n = do
  inst ← deref_instance n
  req ← gets (λ s. request_find inst.pi_val.pv_reqid s.rcache)
  if request_needs_cached inst.pi_val.pv_dkind && is_none req
      then paxos_retrieve inst
      else commit_cached n

Stays-after_mark : (n : ℕ) → Moves Stays (after_mark n)
Stays-after_mark n = Moves-bind Stays-IsPath _ _ (Stays-deref_instance n) λ inst.
    Moves-bind Stays-IsPath _ _ (search ask_rules)
      λ req. search (ask_rules, Stays-retrieve, Stays-commit_cached)

-- An instance is committed, and keeps its value.
paxos_commit-marks :
    (n : ℕ) (i : Instance) (w w' : World) (r : ℕ)
    → Increasing inum_of w.pax.ilist
    → get_at inum_of n w.pax.ilist ≡ some i
    → paxos_commit n w ≡ done r w'
    → (j : Instance) × (get_at inum_of n w'.pax.ilist ≡ some j)
      × (j.pi_committed ≡ true)
      × (j.pi_val ≡ i.pi_val)
unfolding paxos_commit write_instance
paxos_commit-marks n i w w' r s g e =
    let v : World = record w {
      pax = record w.pax { ilist = set_at inum_of n marked w.pax.ilist };
    } in
    let k = modify-done (write_instance n marked) (after_mark n) w w' e in
    let h = after Stays (after_mark n) v w' r (Stays-after_mark n) k in
    let x = h.ext (set_at-Increasing inum_of n marked w.pax.ilist (λ y p. p) s) in
    let (j, f, same) =
      x.kept n (marked i) (get_at-set_at_self inum_of n marked w.pax.ilist i (λ y p. p) g) refl in
    (j, f, same.committed, same.value)

-- The instance as the other acceptors are told of it.
abbrev pub announced : Instance → Instance
announced i = record i { pi_hdr = record i.pi_hdr { ph_opcode = op_commit } }

abbrev pub announcing : ℕ → World → World
announcing n w = record w { pax = record w.pax { ilist = set_at inum_of n announced w.pax.ilist } }

-- The announcement has failed; or it is sent, and the instance is committed with its value.
pub data Commits (i : Instance) (n r : ℕ) (w : World) : World → Type 0 where
  unsent :
      (v : World)
      → paxos_broadcast_instance (announced i) (announcing n w) ≡ done r v
      → (r == 0) ≡ false
      → Commits i n r w v
  sent :
      (v w' : World) (j : Instance)
      → paxos_broadcast_instance (announced i) (announcing n w) ≡ done 0 v
      → get_at inum_of n w'.pax.ilist ≡ some j
      → j.pi_committed ≡ true
      → j.pi_val ≡ i.pi_val
      → Commits i n r w w'

abbrev node_or : Instance → Option Instance → Instance
node_or i none = i
node_or i (some j) = j

abbrev value_or : ℕ → Outcome ℕ → ℕ
value_or n (done a v) = a
value_or n (ended v) = n
value_or n (fault x) = n

pure-value : (a r : ℕ) (w v : World) → pure a w ≡ done r v → a ≡ r
unfolding pure
pure-value a r w v e = ap (value_or a) e

broadcast-Commits :
    (n : ℕ) (i : Instance) (w w' : World) (r : ℕ)
    → Increasing inum_of (announcing n w).pax.ilist
    → get_at inum_of n (announcing n w).pax.ilist ≡ some (announced i)
    → err_ret (paxos_broadcast_instance (announced i)) (paxos_commit n) (announcing n w) ≡ done r w'
    → Commits i n r w w'
unfolding err_ret
broadcast-Commits n i w w' r s g e =
    let u = announcing n w in
    let (b, v, e1, k1) =
      bind-done (paxos_broadcast_instance (announced i))
        (λ b. if b == 0 then paxos_commit n else pure b) u w' r e in
    let q = (after Quiet _ u v b (Quiet-broadcast_instance (announced i)) e1).same in
    elim (if-done (b == 0) _ _ v w' k1) [
      | inl (z, k) ↦
          let (j, f, c, x) =
            paxos_commit-marks n (announced i) v w' r
              (subst (λ t. Increasing inum_of t.ilist) (sym q) s)
              (subst (λ t. get_at inum_of n t.ilist ≡ some (announced i)) (sym q) g) k in
          sent v w' j
            (subst (λ a. paxos_broadcast_instance (announced i) u ≡ done a v) (eq-of-== b 0 z) e1) f
            c x
      | inr (z, k) ↦
          let same = pure-done b r v w' k in
          let value = pure-value b r v w' k in
          subst (Commits i n r w) (sym same) (
            unsent v (subst (λ a. paxos_broadcast_instance (announced i) u ≡ done a v) value e1)
              (subst (λ a. (a == 0) ≡ false) value z))
    ]

pub proposer_commit-Commits :
    (n : ℕ) (i : Instance) (w w' : World) (r : ℕ)
    → Increasing inum_of w.pax.ilist
    → get_at inum_of n w.pax.ilist ≡ some i
    → proposer_commit n w ≡ done r w'
    → Commits i n r w w'
unfolding proposer_commit err_ret write_instance deref_instance
proposer_commit-Commits n i w w' r s g e =
    let u = announcing n w in
    let num : (x : Instance) → inum_of x ≡ n → inum_of (announced x) ≡ n = λ x p. p in
    let g' = get_at-set_at_self inum_of n announced w.pax.ilist i num g in
    let s' = set_at-Increasing inum_of n announced w.pax.ilist num s in
    let (x, u1, e1, k1) =
      bind-done (deref_instance n) _ u w' r (modify-done (write_instance n announced) _ w w' e) in
    let e1' = gets-done (λ t. t.ilist) _ u u1 e1 in
    let q : u1 ≡ u = need-keeps _ _ u u1 x e1' in
    let p : some x ≡ some (announced i) = sym (need-done _ _ u u1 x e1') ∙ g' in
    let same : x ≡ announced i = ap (node_or i) p in
    broadcast-Commits n i w w' r s' g' (
      subst (λ y. err_ret (paxos_broadcast_instance y) (paxos_commit n) u ≡ done r w') same
        (subst (λ z. err_ret (paxos_broadcast_instance x) (paxos_commit n) z ≡ done r w') q k1))
