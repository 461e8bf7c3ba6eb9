-- ===== src/Proposer/Glb.antt =====
-- The insertion of a promised or null instance after its greatest lower bound
-- (get_instance_glb and LIST_INSERT_AFTER in libmotmot/src/paxos_proposer.c).
use motmot.Base.{
  ℕ, ◌≤◌, ◌<◌, ◌≡◌, refl, sym, ◌∙◌, List, [], ◌∷◌, none, some, arith, ◌==◌, ltb, eq-of-==,
  Option-cases, Bool-cases, ◌⊎◌, inl, inr, ap,
}
use motmot.Primitives.{paxid_compare}
use motmot.Container.{insert_fwd}
use motmot.Container.Order.{paxid_compare-IsOrder}
use motmot.Container.Laws.{insert_rev-eq-insert_fwd}
use motmot.Session.{Instance}
use motmot.SessionLocal.{inum_of, get_at, instance_insert}
use motmot.SessionLocal.Tables.{Increasing, Over, get_at-Over, get_at_key}
use motmot.Learn.{nodes_from}
use motmot.Proposer.{glb_loop, insert_after}

-- The loop returns the node before, or one of those that it has passed.
glb_bounds :
    (inum : ℕ) (p it : Instance) (l : List Instance)
    → inum_of p ≤ inum
    → Over inum_of (inum_of p) l
    → Increasing inum_of l
    → glb_loop inum (some p) l ≡ some it
    → (inum_of it ≤ inum) × (inum_of p ≤ inum_of it)
unfolding glb_loop paxid_compare
glb_bounds inum p it [] b o s e = (ground arith, ground arith)
glb_bounds inum p it (x ∷ l) b o s e =
    (ground (arith, glb_bounds inum x it l), ground (arith, glb_bounds inum x it l))

glb_insert :
    (inst p it : Instance) (l : List Instance)
    → inum_of p ≤ inum_of inst
    → Over inum_of (inum_of p) l
    → Increasing inum_of l
    → glb_loop (inum_of inst) (some p) l ≡ some it
    → inum_of it < inum_of inst
    → insert_after (inum_of it) inst (p ∷ l) ≡ (insert_fwd paxid_compare inum_of inst (p ∷ l)).0
unfolding glb_loop paxid_compare insert_after insert_fwd
glb_insert inst p it [] b o s e h = ground arith
glb_insert inst p it (x ∷ l) b o s e h =
    ground (arith, glb_insert inst x it l, glb_bounds (inum_of inst) x it l)

-- Where the loop, from the first node of a sorted list, returns a node that is numbered below a
-- new instance, putting the new instance after that node is the sorted insertion of list_factory.h.
pub insert_after-eq-instance_insert :
    (inst it : Instance) (l : List Instance)
    → Increasing inum_of l
    → glb_loop (inum_of inst) none l ≡ some it
    → inum_of it < inum_of inst
    → insert_after (inum_of it) inst l ≡ (instance_insert inst l).0
unfolding instance_insert glb_loop
insert_after-eq-instance_insert inst it [] s e h = cc
insert_after-eq-instance_insert inst it (x ∷ l) s e h =
    elim (Bool-cases (ltb (inum_of inst) (inum_of x))) [
      | inl b ↦ ground arith
      | inr b ↦
          glb_insert inst x it l (ground arith) s.0 s.1 (ground arith) h
          ∙ sym (
              ap (λ r. r.0) (insert_rev-eq-insert_fwd paxid_compare-IsOrder inum_of inst (x ∷ l) s))
    ]

glb_last :
    (inum : ℕ) (p it : Instance) (l : List Instance) (n : ℕ) (i : Instance)
    → inum_of p ≤ inum
    → Over inum_of (inum_of p) l
    → Increasing inum_of l
    → glb_loop inum (some p) l ≡ some it
    → get_at inum_of n (p ∷ l) ≡ some i
    → n ≤ inum
    → n ≤ inum_of it
unfolding glb_loop paxid_compare get_at
glb_last inum p it [] n i b o s e g h = ground arith
glb_last inum p it (x ∷ l) n i b o s e g h = elim (Bool-cases (inum_of p == n)) [
  | inl a ↦ ground (arith, (glb_bounds inum p it (x ∷ l) b o s e).1, eq-of-== (inum_of p) n a)
  | inr a ↦ (elim (Bool-cases (ltb inum (inum_of x))) [
    | inl c ↦ (elim (Option-cases (get_at inum_of n l)) [
      | inl z ↦ ground (arith, z)
      | inr (y, z) ↦ ground (arith, get_at-Over inum_of (inum_of x) n l y s.0 z)
    ])
    | inr c ↦ glb_last inum x it l n i (ground arith) s.0 s.1 (ground arith) (ground arith) h
  ])
]

-- Where the loop, from the first node of a sorted list, returns a node, that node's number is at
-- most the given one, and no instance of the list has a number between them.
pub glb_loop-greatest :
    (inum : ℕ) (it : Instance) (l : List Instance)
    → Increasing inum_of l
    → glb_loop inum none l ≡ some it
    → (inum_of it ≤ inum)
      × ((n : ℕ) (i : Instance) → get_at inum_of n l ≡ some i → n ≤ inum → n ≤ inum_of it)
unfolding glb_loop
glb_loop-greatest inum it [] s e = cc
glb_loop-greatest inum it (x ∷ l) s e = elim (Bool-cases (ltb inum (inum_of x))) [
  | inl b ↦ ground arith
  | inr b ↦
      let e' : glb_loop inum (some x) l ≡ some it = ground arith in
      let low : inum_of x ≤ inum = ground arith in
      (
        (glb_bounds inum x it l low s.0 s.1 e').0,
        λ n i g h. glb_last inum x it l n i low s.0 s.1 e' g h,
      )
]

glb_from :
    (inum : ℕ) (p it : Instance) (l : List Instance)
    → inum_of p ≤ inum
    → Over inum_of (inum_of p) l
    → Increasing inum_of l
    → glb_loop inum (some p) l ≡ some it
    → get_at inum_of (inum_of it) (p ∷ l) ≡ some it
unfolding glb_loop get_at paxid_compare
glb_from inum p it [] b o s e = ground arith
glb_from inum p it (x ∷ l) b o s e = ground (arith, glb_from inum x it l, glb_bounds inum x it l)

glb_step :
    (inum : ℕ) (x it : Instance) (l : List Instance)
    → inum_of x < inum
    → glb_loop inum (some x) l ≡ some it
    → glb_loop inum none (x ∷ l) ≡ some it
unfolding glb_loop
glb_step inum x it l h e = ground arith

-- What the loop returns is in the list.
pub glb_loop-get_at :
    (inum : ℕ) (it : Instance) (l : List Instance)
    → Increasing inum_of l
    → glb_loop inum none l ≡ some it
    → get_at inum_of (inum_of it) l ≡ some it
unfolding glb_loop get_at
glb_loop-get_at inum it [] s e = cc
glb_loop-get_at inum it (x ∷ l) s e = elim (Bool-cases (ltb inum (inum_of x))) [
  | inl b ↦ ground arith
  | inr b ↦ glb_from inum x it l (ground arith) s.0 s.1 (ground arith)
]

-- A node before the list does not change what is found in it.
glb_before :
    (inum : ℕ) (p it : Instance) (l : List Instance)
    → glb_loop inum none l ≡ some it
    → glb_loop inum (some p) l ≡ some it
unfolding glb_loop
glb_before inum p it [] e = cc
glb_before inum p it (x ∷ l) e = ground arith

glb_reached :
    (inum : ℕ) (it : Instance) (x : Instance) (l : List Instance)
    → Over inum_of (inum_of x) l
    → glb_loop inum none l ≡ some it
    → inum_of x < inum
unfolding glb_loop paxid_compare
glb_reached inum it x [] o e = cc
glb_reached inum it x (y ∷ l) o e = ground (arith, o.0)

-- The loop may start at any node of a sorted list that it does not run back past.
pub glb_loop-nodes_from :
    (n inum : ℕ) (it : Instance) (l : List Instance)
    → Increasing inum_of l
    → glb_loop inum none (nodes_from n l) ≡ some it
    → glb_loop inum none l ≡ some it
unfolding nodes_from
glb_loop-nodes_from n inum it [] s e = e
glb_loop-nodes_from n inum it (x ∷ l) s e = elim (Bool-cases (inum_of x == n)) [
  | inl b ↦ ground arith
  | inr b ↦
      let later = glb_loop-nodes_from n inum it l s.1 (ground arith) in
      glb_step inum x it l (glb_reached inum it x l s.0 later) (glb_before inum x it l later)
]

-- No instance has a number that is above its greatest lower bound.
pub glb_fresh :
    (inum : ℕ) (it : Instance) (l : List Instance)
    → Increasing inum_of l
    → glb_loop inum none l ≡ some it
    → inum_of it < inum
    → get_at inum_of inum l ≡ none
glb_fresh inum it l s g h = elim (Option-cases (get_at inum_of inum l)) [
  | inl e ↦ e
  | inr (i, e) ↦
      let low = (glb_loop-greatest inum it l s g).1 inum i e (omega arith) in absurd (omega arith)
]

-- A search that has passed a node returns one.
glb_loop-some :
    (inum : ℕ) (p : Instance) (l : List Instance)
    → (it : Instance) × (glb_loop inum (some p) l ≡ some it)
unfolding glb_loop
glb_loop-some inum p [] = (p, refl)
glb_loop-some inum p (x ∷ l) = elim (Bool-cases (ltb inum (inum_of x))) [
  | inl b ↦ (p, rw b refl)
  | inr b ↦ let (it, e) = glb_loop-some inum x l in (it, rw b e)
]

nodes_from-cons :
    (n : ℕ) (x : Instance) (l : List Instance)
    → get_at inum_of n l ≡ some x
    → (r : List Instance) × (nodes_from n l ≡ x ∷ r)
unfolding get_at nodes_from
nodes_from-cons n x [] e = ground arith
nodes_from-cons n x (y ∷ l) e = elim (Bool-cases (inum_of y == n)) [
  | inl b ↦ (l, ground arith)
  | inr b ↦ let (r, q) = nodes_from-cons n x l (ground arith) in (r, rw b q)
]

-- In a sorted list, from a node of the list on, the search returns the node of the list with the
-- greatest number that is at most the given one, if the node from which it starts is not above it; and
-- otherwise NULL.
pub glb_loop-greatest_from :
    (n inum : ℕ) (x : Instance) (l : List Instance)
    → Increasing inum_of l
    → get_at inum_of n l ≡ some x
    → ((n ≤ inum)
        × (it : Instance) × (glb_loop inum none (nodes_from n l) ≡ some it)
        × (get_at inum_of (inum_of it) l ≡ some it)
        × (inum_of it ≤ inum)
        × ((m : ℕ) (i : Instance) → get_at inum_of m l ≡ some i → m ≤ inum → m ≤ inum_of it))
      ⊎ ((inum < n) × (glb_loop inum none (nodes_from n l) ≡ none))
unfolding glb_loop
glb_loop-greatest_from n inum x l s e =
    let (r, q) = nodes_from-cons n x l e in
    let k = get_at_key inum_of n l x e in
    elim (Bool-cases (ltb inum (inum_of x))) [
      | inl b ↦ inr (ground arith, rw (q, b) refl)
      | inr b ↦
          let (it, f) = glb_loop-some inum x r in
          let g : glb_loop inum none (nodes_from n l) ≡ some it = rw (q, b) f in
          let whole = glb_loop-nodes_from n inum it l s g in
          let (low, top) = glb_loop-greatest inum it l s whole in
          inl (ground arith, it, g, glb_loop-get_at inum it l s whole, low, top)
    ]
