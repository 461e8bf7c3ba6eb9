-- ===== src/Proposer/Raises.antt =====
-- An ilist that takes in votes (proposer_ack_promise of libmotmot/src/paxos_proposer.c).
use motmot.Base.{
  ℕ, ◌≡◌, refl, sym, subst, ◌∙◌, ◌⊎◌, inl, inr, true, false, ◌==◌, eq-of-==, Bool-cases, Ordering,
  none, some, List, [], ◌∷◌, All, arith,
}
use motmot.Primitives.{paxid_compare}
use motmot.Core.{Ballot, ballot_compare}
use motmot.Container.{insert_rev}
use motmot.Container.Order.{ppair_compare-IsOrder}
use motmot.Session.{Instance}
use motmot.SessionLocal.{inum_of, get_at, set_at, instance_insert}
use motmot.SessionLocal.Tables.{
  Increasing, set_at-Increasing, get_at-set_at_ne, get_at-set_at_self, insert_rev-Increasing,
  get_at-insert_rev, get_at-insert_rev_new, get_at-insert_rev_ne,
}

-- A ballot is above another.
abbrev pub Higher : Instance → Instance → Type 0
Higher i j = ballot_compare i.pi_hdr.ph_ballot j.pi_hdr.ph_ballot ≡ Ordering.gt

-- What an instance may become: itself, or one with a higher ballot where it was not committed.
abbrev pub Raised : Instance → Instance → Type 0
Raised i j = (j ≡ i) ⊎ ((i.pi_committed ≡ false) × Higher j i)

abbrev pub Found : ℕ → Instance → List Instance → Type 0
Found n i l = get_at inum_of n l ≡ some i

-- The vote's number has an instance that is committed, or whose ballot is not below the vote's.
abbrev pub Heeded : List Instance → Instance → Type 0
Heeded l v = (j : Instance) × Found (inum_of v) j l × ((j.pi_committed ≡ true) ⊎ (Higher v j → ⊥))

abbrev pub OneOf : Instance → List Instance → Type 0
OneOf i [] = ⊥
OneOf i (v ∷ vs) = (i ≡ v) ⊎ OneOf i vs

-- One list from another by votes.
pub record Adopts (votes l m : List Instance) : Type 0 where
  pub sorted : Increasing inum_of m
  pub raised : (n : ℕ) (i : Instance) → Found n i l → (j : Instance) × Found n j m × Raised i j
  pub origin : (n : ℕ) (j : Instance) → Found n j m → Found n j l ⊎ OneOf j votes
  pub heeded : All (Heeded m) votes

abbrev pub ballot : Instance → Ballot
ballot i = i.pi_hdr.ph_ballot

Higher-trans : (i j k : Instance) → Higher k j → Higher j i → Higher k i
unfolding ballot_compare
Higher-trans i j k a b =
    let o = ppair_compare-IsOrder in
    o.flip_lt (ballot i) (ballot k) (
      o.trans (ballot i) (ballot j) (ballot k) (o.flip_gt (ballot j) (ballot i) b)
        (o.flip_gt (ballot k) (ballot j) a))

Raised-trans : (i j k : Instance) → Raised i j → Raised j k → Raised i k
Raised-trans i j k (inl a) b = subst (λ x. Raised x k) a b
Raised-trans i j k (inr a) (inl b) = inr (a.0, rw b a.1)
Raised-trans i j k (inr a) (inr b) = inr (a.0, Higher-trans i j k b.1 a.1)

-- What is heeded stays so.
heeded_later :
    (v j k : Instance)
    → (j.pi_committed ≡ true) ⊎ (Higher v j → ⊥)
    → Raised j k
    → (k.pi_committed ≡ true) ⊎ (Higher v k → ⊥)
heeded_later v j k a (inl b) = rw b a
heeded_later v j k (inl a) (inr b) = ground arith
heeded_later v j k (inr a) (inr b) = inr (λ h. a (Higher-trans j k v h b.1))

pub Adopts-none : (l : List Instance) → Increasing inum_of l → Adopts [] l l
Adopts-none l s = record {
  sorted = s;
  raised = λ n i e. (i, e, inl refl);
  origin = λ n j e. inl e;
  heeded = tt;
}

-- One vote, and then others.
pub Adopts-join :
    (v : Instance) (vs l m k : List Instance)
    → Adopts (v ∷ []) l m
    → Adopts vs m k
    → Adopts (v ∷ vs) l k
Adopts-join v vs l m k a b = record {
  sorted = b.sorted;
  raised = λ n i e.
      let (j, f, r) = a.raised n i e in
      let (h, g, q) = b.raised n j f in (h, g, Raised-trans i j h r q);
  origin = λ n j e. elim (b.origin n j e) [
    | inr q ↦ inr (inr q)
    | inl q ↦ (elim (a.origin n j q) [
      | inl x ↦ inl x
      | inr (inl x) ↦ inr (inl x)
      | inr (inr x) ↦ absurd x
    ])
  ];
  heeded =
      let (j, f, c) = a.heeded.0 in
      let (h, g, q) = b.raised (inum_of v) j f in ((h, g, heeded_later v j h c q), b.heeded);
}

the-Found :
    (n m : ℕ) (l : List Instance) (i j : Instance) → n ≡ m → Found n i l → Found m j l → j ≡ i
the-Found n m l i j q e f = let g : Found n j l = rw q f in ground (arith, e, g)

not-Higher : (v : Instance) → Higher v v → ⊥
unfolding ballot_compare
not-Higher v h = let e = ppair_compare-IsOrder.self (ballot v) in ground arith

-- The vote is inserted under a new number.
pub Adopts-insert :
    (v : Instance) (l : List Instance)
    → Increasing inum_of l
    → get_at inum_of (inum_of v) l ≡ none
    → Adopts (v ∷ []) l (instance_insert v l).0
unfolding instance_insert
Adopts-insert v l s e = record {
  sorted = insert_rev-Increasing inum_of v l s;
  raised = λ n i f. (i, get_at-insert_rev inum_of v l n i s f, inl refl);
  origin = λ n j f. elim (Bool-cases (inum_of v == n)) [
    | inl b ↦ inr (
        inl (
          the-Found (inum_of v) n (insert_rev paxid_compare inum_of v l).0 v j
            (eq-of-== (inum_of v) n b) (get_at-insert_rev_new inum_of v l s e) f))
    | inr b ↦ inl (sym (get_at-insert_rev_ne inum_of v l n s (λ x. ground arith)) ∙ f)
  ];
  heeded = ((v, get_at-insert_rev_new inum_of v l s e, inr (not-Higher v)), tt);
}

-- The vote takes the place of an instance that is not committed and has a lower ballot.
pub Adopts-switch :
    (v it : Instance) (l : List Instance)
    → Increasing inum_of l
    → Found (inum_of v) it l
    → it.pi_committed ≡ false
    → Higher v it
    → Adopts (v ∷ []) l (set_at inum_of (inum_of v) (λ x. v) l)
Adopts-switch v it l s e c h =
    let placed : Found (inum_of v) v (set_at inum_of (inum_of v) (λ x. v) l) =
      get_at-set_at_self inum_of (inum_of v) (λ x. v) l it (λ x k. refl) e in
    record {
      sorted = set_at-Increasing inum_of (inum_of v) (λ x. v) l (λ x k. refl) s;
      raised = λ n i f. elim (Bool-cases (inum_of v == n)) [
        | inl b ↦
            let q = eq-of-== (inum_of v) n b in
            let same : i ≡ it = the-Found (inum_of v) n l it i q e f in
            (
              v,
              subst (λ m. Found m v (set_at inum_of (inum_of v) (λ x. v) l)) q placed,
              inr (subst (λ x. (x.pi_committed ≡ false) × Higher v x) (sym same) (c, h)),
            )
        | inr b ↦ (
          i,
          get_at-set_at_ne inum_of (inum_of v) n (λ x. v) l (λ x. ground arith) (λ x k. refl) ∙ f,
          inl refl,
        )
      ];
      origin = λ n j f. elim (Bool-cases (inum_of v == n)) [
        | inl b ↦ inr (
            inl (
              the-Found (inum_of v) n (set_at inum_of (inum_of v) (λ x. v) l) v j
                (eq-of-== (inum_of v) n b) placed f))
        | inr b ↦ inl (
            sym
              (get_at-set_at_ne inum_of (inum_of v) n (λ x. v) l (λ x. ground arith) (λ x k. refl))
            ∙ f)
      ];
      heeded = ((v, placed, inr (not-Higher v)), tt);
    }

pub Adopts-same :
    (v it : Instance) (l : List Instance)
    → Increasing inum_of l
    → Found (inum_of v) it l
    → (it.pi_committed ≡ true) ⊎ (Higher v it → ⊥)
    → Adopts (v ∷ []) l l
Adopts-same v it l s e h = record {
  sorted = s;
  raised = λ n i f. (i, f, inl refl);
  origin = λ n j f. inl f;
  heeded = ((it, e, h), tt);
}
