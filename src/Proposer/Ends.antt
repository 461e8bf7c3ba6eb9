-- ===== src/Proposer/Ends.antt =====
-- The end of the ilist, under the writes of proposer_ack_promise (libmotmot/src/paxos_proposer.c).
use motmot.Base.{
  ℕ, ◌<◌, ◌≡◌, ◌≢◌, refl, sym, subst, ◌∙◌, List, [], ◌∷◌, none, some, arith, ◌==◌, inl, inr,
  Bool-cases, get_last?,
}
use motmot.Session.{Instance}
use motmot.SessionLocal.{instance_insert, inum_of, get_at, set_at}
use motmot.SessionLocal.Tables.{Increasing, get_at-Over, set_at-Increasing, insert_rev-Increasing}
use motmot.Proposer.{glb_loop, insert_after}
use motmot.Proposer.Glb.{insert_after-eq-instance_insert}

-- The last instance of a sorted list is in it.
pub last_found :
    (l : List Instance) (j : Instance)
    → Increasing inum_of l
    → get_last? l ≡ some j
    → get_at inum_of (inum_of j) l ≡ some j
unfolding get_at
last_found [] j s e = cc
last_found (x ∷ []) j s e = ground arith
last_found (x ∷ y ∷ l) j s e =
    let later = last_found (y ∷ l) j s.1 e in
    let above = get_at-Over inum_of (inum_of x) (inum_of j) (y ∷ l) j s.0 later in ground arith

-- A sorted list that ends with the number `m`.
pub record EndsAt (m : ℕ) (l : List Instance) : Type 0 where
  pub sorted : Increasing inum_of l
  pub last : Instance
  pub at_end : get_last? l ≡ some last
  pub number : inum_of last ≡ m

-- A write that leaves the numbers alone.
last-set_at :
    (n : ℕ) (f : Instance → Instance) (l : List Instance) (j : Instance)
    → ((x : Instance) → inum_of (f x) ≡ inum_of x)
    → get_last? l ≡ some j
    → (k : Instance) × (get_last? (set_at inum_of n f l) ≡ some k) × (inum_of k ≡ inum_of j)
unfolding set_at
last-set_at n f [] j h e = cc
last-set_at n f (x ∷ []) j h e = elim (Bool-cases (inum_of x == n)) [
  | inl b ↦ (f x, ground arith, ground (arith, h x))
  | inr b ↦ (x, ground arith, ground arith)
]
last-set_at n f (x ∷ y ∷ l) j h e =
    let (k, ek, nk) = last-set_at n f (y ∷ l) j h e in
    elim (Bool-cases (inum_of x == n)) [
      | inl b ↦ (j, ground arith, refl)
      | inr b ↦ (elim (Bool-cases (inum_of y == n)) [
        | inl c ↦ (k, ground (arith, ek), nk)
        | inr c ↦ (k, ground (arith, ek), nk)
      ])
    ]

-- An insertion after a node that is not the last one.
last-insert_after :
    (n : ℕ) (inst : Instance) (l : List Instance) (j : Instance)
    → get_last? l ≡ some j
    → inum_of j ≢ n
    → get_last? (insert_after n inst l) ≡ some j
unfolding insert_after
last-insert_after n inst [] j e h = e
last-insert_after n inst (x ∷ []) j e h = ground arith
last-insert_after n inst (x ∷ y ∷ l) j e h =
    let later = last-insert_after n inst (y ∷ l) j e h in
    elim (Bool-cases (inum_of x == n)) [
      | inl b ↦ ground (arith, e)
      | inr b ↦ (elim (Bool-cases (inum_of y == n)) [
        | inl c ↦ ground (arith, later)
        | inr c ↦ ground (arith, later)
      ])
    ]

pub EndsAt-set_at :
    (m n : ℕ) (f : Instance → Instance) (l : List Instance)
    → ((x : Instance) → inum_of (f x) ≡ inum_of x)
    → EndsAt m l
    → EndsAt m (set_at inum_of n f l)
EndsAt-set_at m n f l h e =
    let (k, ek, nk) = last-set_at n f l e.last h e.at_end in
    record {
      sorted = set_at-Increasing inum_of n f l (λ x p. h x ∙ p) e.sorted;
      last = k;
      at_end = ek;
      number = nk ∙ e.number;
    }

pub EndsAt-insert_after :
    (m : ℕ) (inst it : Instance) (l : List Instance)
    → EndsAt m l
    → glb_loop (inum_of inst) none l ≡ some it
    → inum_of it < inum_of inst
    → inum_of it ≢ m
    → EndsAt m (insert_after (inum_of it) inst l)
unfolding instance_insert
EndsAt-insert_after m inst it l e g h d = record {
  sorted =
      subst (Increasing inum_of) (sym (insert_after-eq-instance_insert inst it l e.sorted g h))
        (insert_rev-Increasing inum_of inst l e.sorted);
  last = e.last;
  at_end = last-insert_after (inum_of it) inst l e.last e.at_end (λ p. d (sym p ∙ e.number));
  number = e.number;
}
