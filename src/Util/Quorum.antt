-- ===== src/Util/Quorum.antt =====
-- Majorities, the choice of a proposer, and the next instance (libmotmot/src/paxos_util.c).
use motmot.Base.{
  ℕ, ◌+◌, ◌≤◌, ◌<◌, ◌≡◌, ◌≢◌, refl, List, [], ◌∷◌, none, some, arith, length, inc32_lem, u32_mod,
  ◌==◌, get_last?, All, ◌⊎◌, inl, inr, subst, sym, Bool-cases, Option-cases,
}
use motmot.Container.Order.{lt-paxid_compare}
use motmot.Session.{Acceptor, Instance, Session}
use motmot.SessionLocal.{inum_of, paxid_of, get_at}
use motmot.SessionLocal.Tables.{Increasing, get_at-Over}
use motmot.Util.{first_eligible, reset_proposer, next_instance, majority}

-- Two majorities of the acceptors of a session are together more acceptors than there are; and the
-- acceptors, all together, are a majority if there are any.
pub majority-quorums :
    (pax : Session)
    → (length pax.alist < majority pax + majority pax)
      × (0 < length pax.alist → majority pax ≤ length pax.alist)
unfolding majority
majority-quorums pax = (omega arith, λ h. omega arith)

-- An acceptor that may be the proposer: we are connected to it, or it is ourselves.
abbrev pub Eligible : ℕ → Acceptor → Type 0
Eligible self a = (a.pa_peer ≢ none) ⊎ (paxid_of a ≡ self)

-- The first eligible acceptor of a list, with its number.
abbrev pub FirstEligible : ℕ → ℕ → List Acceptor → Type 0
FirstEligible self p l =
    ((a : Acceptor) × (get_at paxid_of p l ≡ some a) × Eligible self a)
    × ((n : ℕ) (b : Acceptor) → get_at paxid_of n l ≡ some b → Eligible self b → p ≤ n)

first_found :
    (self : ℕ) (a : Acceptor) (l : List Acceptor)
    → Increasing paxid_of (a ∷ l)
    → Eligible self a
    → FirstEligible self (paxid_of a) (a ∷ l)
unfolding get_at
first_found self a l s e = (
  (a, ground arith, e),
  λ n b g _. elim (Option-cases (get_at paxid_of n l)) [
    | inl z ↦ ground (arith, z)
    | inr (y, z) ↦ ground (arith, get_at-Over paxid_of (paxid_of a) n l y s.0 z)
  ],
)

first_later :
    (self p : ℕ) (a : Acceptor) (l : List Acceptor)
    → Increasing paxid_of (a ∷ l)
    → (Eligible self a → ⊥)
    → FirstEligible self p l
    → FirstEligible self p (a ∷ l)
unfolding get_at
first_later self p a l s e ((c, g, k), f) =
    let over = get_at-Over paxid_of (paxid_of a) p l c s.0 g in
    (
      (c, ground arith, k),
      λ n b g' k'. elim (Bool-cases (paxid_of a == n)) [
        | inl z ↦
            let same : a ≡ b = ground arith in absurd (e (subst (Eligible self) (sym same) k'))
        | inr z ↦ f n b (ground arith) k'
      ],
    )

first_eligible-FirstEligible :
    (self : ℕ) (me : Acceptor) (l : List Acceptor)
    → Increasing paxid_of l
    → get_at paxid_of self l ≡ some me
    → (p : ℕ) × (first_eligible self l ≡ some p) × FirstEligible self p l
unfolding first_eligible get_at
first_eligible-FirstEligible self me [] s h = cc
first_eligible-FirstEligible self me (a ∷ l) s h = elim (Option-cases a.pa_peer) [
  | inr (q, e) ↦ (paxid_of a, ground arith, first_found self a l s (inl (λ z. ground arith)))
  | inl e ↦ (elim (Bool-cases (paxid_of a == self)) [
    | inl b ↦ (paxid_of a, ground arith, first_found self a l s (inr (ground arith)))
    | inr b ↦
        let (p, g, f) = first_eligible-FirstEligible self me l s.1 (ground arith) in
        (
          p,
          ground arith,
          first_later self p a l s (λ k. elim k [ inl z ↦ z e | inr z ↦ ground arith ]) f,
        )
  ])
]

-- Where the alist is sorted and we are in it, `reset_proposer` sets the proposer to the eligible
-- acceptor with the smallest identifier, and nothing else.
pub reset_proposer-FirstEligible :
    (pax : Session) (me : Acceptor)
    → Increasing paxid_of pax.alist
    → get_at paxid_of pax.self_id pax.alist ≡ some me
    → (p : ℕ) × (reset_proposer pax ≡ record pax { proposer = some p })
      × FirstEligible pax.self_id p pax.alist
unfolding reset_proposer
reset_proposer-FirstEligible pax me s h =
    let (p, e, f) = first_eligible-FirstEligible pax.self_id me pax.alist s h in
    (p, rw (reset_proposer, e) refl, f)

pub last_highest :
    (l : List Instance) (i j : Instance) (n : ℕ)
    → Increasing inum_of l
    → get_last? l ≡ some j
    → get_at inum_of n l ≡ some i
    → n ≤ inum_of j
unfolding get_at
last_highest [] i j n s e g = cc
last_highest (x ∷ []) i j n s e g = ground arith
last_highest (x ∷ y ∷ l) i j n s e g = elim (Bool-cases (inum_of x == n)) [
  | inl b ↦
      let below : inum_of x < inum_of y = lt-paxid_compare (inum_of x) (inum_of y) s.0.0 in
      let up = last_highest (y ∷ l) y j (inum_of y) s.1 e (ground arith) in ground arith
  | inr b ↦ last_highest (y ∷ l) i j n s.1 e (ground arith)
]

pub last_some : (x : Instance) (l : List Instance) → get_last? (x ∷ l) ≢ none
last_some x [] h = cc
last_some x (y ∷ l) h = last_some y l h

no_last :
    (l : List Instance) (n : ℕ) (i : Instance)
    → get_last? l ≡ none
    → get_at inum_of n l ≡ some i
    → ⊥
unfolding get_at
no_last [] n i e g = cc
no_last (x ∷ l) n i e g = last_some x l e

pub last_All :
    (l : List Instance) (j : Instance)
    → All (λ i. inum_of i + 1 < u32_mod) l
    → get_last? l ≡ some j
    → inum_of j + 1 < u32_mod
last_All [] j a e = cc
last_All (x ∷ []) j a e = ground (arith, a.0)
last_All (x ∷ y ∷ l) j a e = last_All (y ∷ l) j a.1 e

-- While instance numbers have not reached the end of `uint32_t`, the number that `next_instance`
-- gives is above that of every instance in a sorted ilist.
pub next_instance-fresh :
    (pax : Session) (n : ℕ) (i : Instance)
    → Increasing inum_of pax.ilist
    → All (λ j. inum_of j + 1 < u32_mod) pax.ilist
    → get_at inum_of n pax.ilist ≡ some i
    → n < next_instance pax
unfolding next_instance
next_instance-fresh pax n i s b g = elim (Option-cases (get_last? pax.ilist)) [
  | inl e ↦ absurd (no_last pax.ilist n i e g)
  | inr (j, e) ↦
      let up = last_highest pax.ilist i j n s e g in
      let next = inc32_lem (inum_of j) (last_All pax.ilist j b e) in
      rw (next_instance, e) (omega (arith, up, next))
]
