-- ===== src/Primitives.antt =====
-- libmotmot/src/types/primitives.h and primitives.c: identifiers and their orders.
-- A comparison returns an `int` whose sign alone is ever read; here it is the sign.
use motmot.Base.{ℕ, Ordering, List, [], ◌∷◌, ltb, length, if◌then◌else◌}

-- Totally ordered pair of paxid's: a participant and a generation number.
pub record Ppair : Type 0 where
  pub id : ℕ
  pub gen : ℕ

unfoldable pub paxid_compare : ℕ → ℕ → Ordering
paxid_compare x y = if ltb x y then Ordering.lt else if ltb y x then Ordering.gt else Ordering.eq

-- `if (r) { return r; }`, then the ids the other way round.
unfoldable pub ppair_compare : Ppair → Ppair → Ordering
unfolding paxid_compare
ppair_compare x y = elim (paxid_compare x.gen y.gen) [
  | Ordering.eq ↦ paxid_compare y.id x.id
  | r ↦ r
]

-- `memcmp` on as many bytes as both have
memcmp : List ℕ → List ℕ → Ordering
unfolding paxid_compare
memcmp [] ys = Ordering.eq
memcmp (x ∷ xs) [] = Ordering.eq
memcmp (x ∷ xs) (y ∷ ys) =
    let rest = memcmp xs ys in elim (paxid_compare x y) [ Ordering.eq ↦ rest | r ↦ r ]

unfoldable pub pax_str_compare : List ℕ → List ℕ → Ordering
unfolding memcmp
pax_str_compare x y =
    if ltb (length x) (length y)
    then Ordering.lt
    else if ltb (length y) (length x)
    then Ordering.gt
    else memcmp x y

-- UUIDs are 64-bit numbers.
unfoldable pub pax_uuid_compare : ℕ → ℕ → Ordering
pax_uuid_compare x y = if ltb x y then Ordering.lt else if ltb y x then Ordering.gt else Ordering.eq
