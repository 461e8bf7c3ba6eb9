-- ===== src/Learn/Order.antt =====
-- In which order values are learned: the loop of paxos_commit (libmotmot/src/paxos_learn.c).
use mathlib.Core.Path.{ap₂}
use motmot.Base.{
  ap, eq-of-==, ℕ, ◌≡◌, refl, subst, ◌∙◌, ◌⊎◌, inl, inr, Bool, true, false, not, ◌&&◌, ◌==◌, List,
  [], ◌∷◌, Option, arith, inc32, if◌then◌else◌,
}
use motmot.Session.{Instance, Request, Session, Ref, null, list_head, at, off, scratch}
use motmot.SessionLocal.{inum_of, set_at}
use motmot.SessionLocal.Tables.{Increasing}
use motmot.Util.{err_ret, write_instance, deref_instance}
use motmot.Learn.{
  paxos_learn, request_for, learn_round, learn_from, set_istart, last_ref, nodes_from, start_nodes,
  assert_front, learn_nodes, learn_off, learn_next, learn_start, learn_contiguous, deref,
}
use motmot.Learn.Level.{
  Level-assert_front, Level, Level-IsPath, stop, Level-istart, Level-value, Level-request_for,
}
use motmot.Exec.{
  M, World, done, dangling, null_deref, off_list, fail, gets, modify, assert, pure, ◌>>=◌, ◌>>◌,
}
use motmot.Exec.Returns.{
  bind-done, modify-done, gets-done, fail-done, if-done, need-keeps, pure-done, assert-keeps,
  assert-done, after,
}
use motmot.Learn.Nodes.{start_nodes-hole, nodes_from-hole}
use motmot.Exec.Moves.{Moves-assert}

-- What the loop should learn: the instances that are numbered from the hole on without a gap, as
-- long as they are committed and cached.
abbrev pub ready : ℕ → List Instance → List Instance
ready hole [] = []
ready hole (it ∷ l) =
    if (it.pi_hdr.ph_inum == hole) && (it.pi_committed && it.pi_cached)
    then it ∷ ready (inc32 hole) l
    else []

-- The number after a sequence of instances that starts at a number.
abbrev pub past : List Instance → ℕ → ℕ
past [] hole = hole
past (it ∷ l) hole = past l (inc32 hole)

abbrev pub learned : Instance → Instance
learned i = record i { pi_learned = true }

-- The ilist in which a sequence of instances has been marked as learned.
abbrev pub mark : List Instance → List Instance → List Instance
mark [] ilist = ilist
mark (it ∷ l) ilist = mark l (set_at inum_of it.pi_hdr.ph_inum learned ilist)

zero-if :
    (b : Bool) (a : ℕ) (k : M ℕ) (v w' : World)
    → (a == 0) ≡ b
    → (if b then k else pure a) v ≡ done 0 w'
    → (a ≡ 0) × (k v ≡ done 0 w')
unfolding pure
zero-if true a k v w' h e = (eq-of-== a 0 h, e)
zero-if false a k v w' h e = ground arith

-- ERR_RET returns 0 only after both of its parts have.
err_ret-done :
    (m k : M ℕ) (w w' : World)
    → err_ret m k w ≡ done 0 w'
    → (v : World) × (m w ≡ done 0 v) × (k v ≡ done 0 w')
unfolding err_ret
err_ret-done m k w w' e =
    let (a, v, em, ek) = bind-done m (λ r. if r == 0 then k else pure r) w w' 0 e in
    let (z, f) = zero-if (a == 0) a k v w' refl ek in (v, subst (λ n. m w ≡ done n v) z em, f)

-- How a round ends: it stops, or it learns its instance and goes on.
round-cases :
    (b c : Bool) (m n k : M ℕ) (w w' : World)
    → (if not b then m else if not c then n else k) w ≡ done 0 w'
    → ((b && c) ≡ false) × ((m w ≡ done 0 w') ⊎ (n w ≡ done 0 w'))
      ⊎ (((b && c) ≡ true) × (k w ≡ done 0 w'))
round-cases false c m n k w w' e = inl (refl, inl e)
round-cases true false m n k w w' e = inl (refl, inr e)
round-cases true true m n k w w' e = inr (refl, e)

-- An instance is learned.
paxos_learn-marks :
    (it : Instance) (req : Option Request) (w v : World) (a : ℕ)
    → paxos_learn it req w ≡ done a v
    → (v.pax.ilist ≡ set_at inum_of it.pi_hdr.ph_inum learned w.pax.ilist)
      × (v.pax.ihole ≡ w.pax.ihole)
unfolding paxos_learn ◌>>=◌ modify write_instance
paxos_learn-marks it req w v a e =
    let h = after Level _ _ v a (Level-value it req it.pi_val.pv_dkind) e in (h.ilist, h.hole)

-- The loop's effect on the ilist and the hole.
abbrev Learns : List Instance → World → World → Type 0
Learns nodes w w' =
    (w'.pax.ilist ≡ mark (ready w.pax.ihole nodes) w.pax.ilist)
    × (w'.pax.ihole ≡ past (ready w.pax.ihole nodes) w.pax.ihole)

Learns-stop :
    (it : Instance) (l : List Instance) (f : Session → Ref) (w w' : World)
    → ((it.pi_hdr.ph_inum == w.pax.ihole) && (it.pi_committed && it.pi_cached)) ≡ false
    → stop f w ≡ done 0 w'
    → Learns (it ∷ l) w w'
Learns-stop it l f w w' b e =
    let h = after Level _ w w' 0 (Level-istart f) e in rw b (h.ilist, h.hole)

-- A round that learns: the assert, the request, the learning, and the rounds that are left.
learning-done :
    (it : Instance) (rest : M ℕ) (w w' : World)
    → (do
      assert (not it.pi_learned)
      req ← request_for it
      err_ret (paxos_learn it req) (do modify (λ s. record s { ihole = inc32 s.ihole }); rest))
        w
      ≡ done 0 w'
    → (v : World) × (v.pax.ilist ≡ set_at inum_of it.pi_hdr.ph_inum learned w.pax.ilist)
      × (v.pax.ihole ≡ inc32 w.pax.ihole)
      × (rest v ≡ done 0 w')
learning-done it rest w w' e =
    let (_, v1, e1, f1) = bind-done _ _ w w' 0 e in
    let (req, v2, e2, f2) = bind-done (request_for it) _ v1 w' 0 f1 in
    let (v3, e3, f3) = err_ret-done (paxos_learn it req) _ v2 w' f2 in
    let h1 = after Level _ w v1 _ (Moves-assert Level-IsPath (not it.pi_learned)) e1 in
    let h2 = after Level _ v1 v2 _ (Level-request_for it) e2 in
    let (i3, j3) = paxos_learn-marks it req v2 v3 0 e3 in
    (
      record v3 { pax = record v3.pax { ihole = inc32 v3.pax.ihole } },
      i3 ∙ ap (set_at inum_of it.pi_hdr.ph_inum learned) (h2.ilist ∙ h1.ilist),
      ap inc32 (j3 ∙ h2.hole ∙ h1.hole),
      modify-done (λ s. record s { ihole = inc32 s.ihole }) rest v3 w' f3,
    )

learn_from-Learns :
    (prev : Ref) (nodes : List Instance) (w w' : World)
    → learn_from prev nodes w ≡ done 0 w'
    → Learns nodes w w'
unfolding learn_from learn_round set_istart
learn_from-Learns prev [] w w' e =
    let h = after Level _ w w' 0 (Level-istart (λ s. last_ref s.ilist)) e in (h.ilist, h.hole)
learn_from-Learns prev (it ∷ l) w w' e =
    elim (round-cases (it.pi_hdr.ph_inum == w.pax.ihole) (it.pi_committed && it.pi_cached) _ _ _ w
      w' (gets-done (λ s. s.ihole) _ w w' e)) [
        | inl (b, inl k) ↦ Learns-stop it l (λ _. prev) w w' b k
        | inl (b, inr k) ↦ Learns-stop it l (λ _. at it.pi_hdr.ph_inum) w w' b k
        | inr (b, k) ↦
            let (v, i, j, k') = learning-done it (learn_from (at it.pi_hdr.ph_inum) l) w w' k in
            let h = learn_from-Learns (at it.pi_hdr.ph_inum) l v w' k' in
            rw b (h.0 ∙ ap₂ mark (ap (λ n. ready n l) j) i, h.1 ∙ ap (λ n. past (ready n l) n) j)
      ]

assert_front-done :
    (hole : ℕ) (l : List Instance) (w v : World) (a : Unit {0})
    → assert_front hole l w ≡ done a v
    → (x : Instance) × (r : List Instance) × (l ≡ x ∷ r) × (inum_of x ≡ hole)
unfolding assert_front
assert_front-done hole [] w v a e = absurd (fail-done {A = Unit {0}} dangling w v a e)
assert_front-done hole (x ∷ l) w v a e =
    (x, l, refl, eq-of-== (inum_of x) hole (assert-done (inum_of x == hole) w v a e))

deref-keeps : (p : Ref) (i : Instance) (w v : World) → deref p w ≡ done i v → v ≡ w
unfolding deref deref_instance
deref-keeps null i w v e = absurd (fail-done null_deref w v i e)
deref-keeps list_head i w v e = absurd (fail-done dangling w v i e)
deref-keeps (at n) i w v e = need-keeps _ _ w v i (gets-done (λ s. s.ilist) _ w v e)
deref-keeps (off j r) i w v e = pure-done j i w v e
deref-keeps (scratch j r) i w v e = pure-done j i w v e

-- What learning does from nodes of the ilist that begin with the hole.
abbrev pub LearnsReady : World → World → Type 0
LearnsReady w w' = Learns (nodes_from w.pax.ihole w.pax.ilist) w w'

learn_nodes-done :
    (p : Ref) (nodes : List Instance) (w w' : World)
    → ((x : Instance) (r : List Instance)
        → nodes ≡ x ∷ r
        → inum_of x ≡ w.pax.ihole
        → nodes ≡ nodes_from w.pax.ihole w.pax.ilist)
    → learn_nodes p nodes w ≡ done 0 w'
    → LearnsReady w w'
unfolding learn_nodes set_istart
learn_nodes-done p nodes w w' n e =
    let (a, v, e1, f1) =
      bind-done (assert_front w.pax.ihole nodes) _ w w' 0 (gets-done (λ s. s.ihole) _ w w' e) in
    let f2 = modify-done (λ s. record s { istart = at w.pax.ihole }) _ v w' f1 in
    let h = after Level _ w v a (Level-assert_front _ _) e1 in
    let (x, r, q, k) = assert_front-done _ _ w v a e1 in
    let z : World = record v { pax = record v.pax { istart = at w.pax.ihole } } in
    let (i, j) = learn_from-Learns p nodes z w' f2 in
    let same = ap₂ ready h.hole (n x r q k) in (i ∙ ap₂ mark same h.ilist, j ∙ ap₂ past same h.hole)

-- Learning stops at an instance that is not ready and holds the hole.
record Stops (i : Instance) (w w' : World) : Type 0 where
  hole : inum_of i ≡ w.pax.ihole
  waiting : (i.pi_committed && i.pi_cached) ≡ false
  same_ilist : w'.pax.ilist ≡ w.pax.ilist
  same_ihole : w'.pax.ihole ≡ w.pax.ihole

learn_off-done :
    (i : Instance) (r : Ref) (w w' : World) → learn_off i r w ≡ done 0 w' → Stops i w w'
unfolding learn_off set_istart
learn_off-done i r w w' e =
    let (a, v, e1, f1) =
      bind-done (assert (inum_of i == w.pax.ihole)) _ w w' 0 (gets-done (λ s. s.ihole) _ w w' e) in
    let q = assert-keeps _ w v a e1 in
    let f2 =
      subst
        (λ z.
          (if not (i.pi_committed && i.pi_cached) then stop (λ s. off i r) else fail off_list) z
          ≡ done 0 w')
        q f1 in
    elim (if-done (not (i.pi_committed && i.pi_cached)) _ _ w w' f2) [
      | inl (b, k) ↦
          let h = after Level _ w w' 0 (Level-istart (λ s. off i r)) k in
          record {
            hole = eq-of-== (inum_of i) w.pax.ihole (assert-done _ w v a e1);
            waiting = ground (arith, b);
            same_ilist = h.ilist;
            same_ihole = h.hole;
          }
      | inr (b, k) ↦ absurd (fail-done off_list w w' 0 k)
    ]

-- A pointer to an instance that is off the ilist.
abbrev pub OffNode : Ref → Instance → Type 0
OffNode (off i r) j = i ≡ j
OffNode (scratch i r) j = i ≡ j
OffNode _ j = ⊥

-- One that points to it, or whose `le_next` does.
abbrev pub OffStart : Ref → Instance → Type 0
OffStart (off i r) j = (i ≡ j) ⊎ OffNode r j
OffStart (scratch i r) j = (i ≡ j) ⊎ OffNode r j
OffStart _ j = ⊥

-- Learning ends in one of two ways.
abbrev Ends : (Instance → Type 0) → World → World → Type 0
Ends P w w' = LearnsReady w w' ⊎ ((i : Instance) × P i × Stops i w w')

learn_next-done : (p : Ref) (w w' : World) → learn_next p w ≡ done 0 w' → Ends (OffNode p) w w'
unfolding learn_next
learn_next-done null w w' e = absurd (fail-done null_deref w w' 0 e)
learn_next-done list_head w w' e = absurd (fail-done dangling w w' 0 e)
learn_next-done (at n) w w' e = inl (
    learn_nodes-done (at n) (nodes_from n w.pax.ilist) w w'
      (nodes_from-hole n w.pax.ihole w.pax.ilist) (gets-done (λ s. s.ilist) _ w w' e))
learn_next-done (off i r) w w' e = inr (i, refl, learn_off-done i r w w' e)
learn_next-done (scratch i r) w w' e = inr (i, refl, learn_off-done i r w w' e)

learn_beside-done :
    (i : Instance) (r : Ref) (w w' : World)
    → (do
      hole ← gets (λ s. s.ihole)
      if i.pi_hdr.ph_inum == hole then learn_off i r else learn_next r)
        w
      ≡ done 0 w'
    → Ends (λ j. (i ≡ j) ⊎ OffNode r j) w w'
learn_beside-done i r w w' e =
    elim (if-done (inum_of i == w.pax.ihole) _ _ w w' (gets-done (λ s. s.ihole) _ w w' e)) [
      | inl (b, k) ↦ inr (i, inl refl, learn_off-done i r w w' k)
      | inr (b, k) ↦ (elim (learn_next-done r w w' k) [
        | inl h ↦ inl h
        | inr (j, o, h) ↦ inr (j, inr o, h)
      ])
    ]

learn_start-done :
    (p : Ref) (start : Instance) (w w' : World)
    → Increasing inum_of w.pax.ilist
    → learn_start p start w ≡ done 0 w'
    → Ends (OffStart p) w w'
unfolding learn_start
learn_start-done null start w w' s e = absurd (fail-done null_deref w w' 0 e)
learn_start-done list_head start w w' s e = absurd (fail-done dangling w w' 0 e)
learn_start-done (at n) start w w' s e = inl (
    learn_nodes-done (at n) (start_nodes w.pax.ihole start w.pax.ilist) w w'
      (λ x r q k. start_nodes-hole w.pax.ihole start w.pax.ilist x r s q k)
      (gets-done (λ t. t) _ w w' e))
learn_start-done (off i r) start w w' s e = learn_beside-done i r w w' e
learn_start-done (scratch i r) start w w' s e = learn_beside-done i r w w' e

-- Learning, where it returns 0, on a sorted ilist. Either it has marked as learned exactly the
-- instances of the ilist that are numbered from the hole on without a gap, as long as they are committed and
-- cached, and has changed nothing else in the ilist; and the hole is the number after them. Or `istart`
-- points to a node that a promise has taken off the ilist; that node, or the one that its `le_next` points to
-- off the ilist, holds the hole and is not committed and cached; and neither the ilist nor the
-- hole has changed, whatever the ilist has at the hole.
pub learn_contiguous-ready :
    (w w' : World)
    → Increasing inum_of w.pax.ilist
    → learn_contiguous w ≡ done 0 w'
    → ((w'.pax.ilist ≡ mark (ready w.pax.ihole (nodes_from w.pax.ihole w.pax.ilist)) w.pax.ilist)
        × (w'.pax.ihole
            ≡ past (ready w.pax.ihole (nodes_from w.pax.ihole w.pax.ilist)) w.pax.ihole))
      ⊎ ((i : Instance) × OffStart w.pax.istart i
          × (inum_of i ≡ w.pax.ihole)
          × ((i.pi_committed && i.pi_cached) ≡ false)
          × (w'.pax.ilist ≡ w.pax.ilist)
          × (w'.pax.ihole ≡ w.pax.ihole))
unfolding learn_contiguous
learn_contiguous-ready w w' s e =
    let (start, v, e1, f1) =
      bind-done (deref w.pax.istart) _ w w' 0 (gets-done (λ t. t.istart) _ w w' e) in
    let q = deref-keeps w.pax.istart start w v e1 in
    elim (learn_start-done w.pax.istart start w w' s
      (subst (λ z. learn_start w.pax.istart start z ≡ done 0 w') q f1)) [
        | inl h ↦ inl h
        | inr (i, o, h) ↦ inr (i, o, h.hole, h.waiting, h.same_ilist, h.same_ihole)
      ]
