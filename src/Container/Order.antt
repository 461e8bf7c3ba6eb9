-- ===== src/Container/Order.antt =====
-- What list_factory.h asks of its callback `compare`: that it "totally orders all instances of the
-- struct". The comparisons of primitives.c fill this interface.
use motmot.Base.{ℕ, ◌≡◌, Ordering, List, [], ◌∷◌, All, arith, ◌<◌}
use motmot.Primitives.{Ppair, paxid_compare, ppair_compare}

pub record IsOrder {κ} {K : Type κ} (order : K → K → Ordering) : Type κ where
  pub self : (x : K) → order x x ≡ Ordering.eq
  pub same : (x y : K) → order x y ≡ Ordering.eq → x ≡ y
  pub flip_lt : (x y : K) → order x y ≡ Ordering.lt → order y x ≡ Ordering.gt
  pub flip_gt : (x y : K) → order x y ≡ Ordering.gt → order y x ≡ Ordering.lt
  pub trans :
      (x y z : K) → order x y ≡ Ordering.lt → order y z ≡ Ordering.lt → order x z ≡ Ordering.lt

-- Strictly increasing identifiers.
abbrev pub Sorted {ℓ κ} : {A : Type ℓ} {K : Type κ} → (K → K → Ordering) → (A → K) → List A → Type 0
Sorted order key [] = Unit
Sorted order key (x ∷ l) = All (λ y. order (key x) (key y) ≡ Ordering.lt) l × Sorted order key l

pub paxid_compare-lt : (x y : ℕ) → x < y → paxid_compare x y ≡ Ordering.lt
unfolding paxid_compare
paxid_compare-lt x y h = ground arith

pub lt-paxid_compare : (x y : ℕ) → paxid_compare x y ≡ Ordering.lt → x < y
unfolding paxid_compare
lt-paxid_compare x y h = ground arith

pub eq-paxid_compare : (x y : ℕ) → paxid_compare x y ≡ Ordering.eq → x ≡ y
unfolding paxid_compare
eq-paxid_compare x y h = ground arith

pub gt-paxid_compare : (x y : ℕ) → paxid_compare x y ≡ Ordering.gt → y < x
unfolding paxid_compare
gt-paxid_compare x y h = ground arith

paxid_self : (x : ℕ) → paxid_compare x x ≡ Ordering.eq
unfolding paxid_compare
paxid_self x = ground arith

paxid_flip_lt : (x y : ℕ) → paxid_compare x y ≡ Ordering.lt → paxid_compare y x ≡ Ordering.gt
unfolding paxid_compare
paxid_flip_lt x y h = ground arith

paxid_flip_gt : (x y : ℕ) → paxid_compare x y ≡ Ordering.gt → paxid_compare y x ≡ Ordering.lt
unfolding paxid_compare
paxid_flip_gt x y h = ground arith

paxid_trans :
    (x y z : ℕ)
    → paxid_compare x y ≡ Ordering.lt
    → paxid_compare y z ≡ Ordering.lt
    → paxid_compare x z ≡ Ordering.lt
unfolding paxid_compare
paxid_trans x y z h k = ground arith

-- `paxid_compare` is a strict total order.
pub paxid_compare-IsOrder : IsOrder paxid_compare
paxid_compare-IsOrder = record {
  self = paxid_self;
  same = eq-paxid_compare;
  flip_lt = paxid_flip_lt;
  flip_gt = paxid_flip_gt;
  trans = paxid_trans;
}

ppair_self : (x : Ppair) → ppair_compare x x ≡ Ordering.eq
unfolding ppair_compare
ppair_self x = ground arith

ppair_same : (x y : Ppair) → ppair_compare x y ≡ Ordering.eq → x ≡ y
unfolding ppair_compare
ppair_same x y h = ground arith

ppair_flip_lt : (x y : Ppair) → ppair_compare x y ≡ Ordering.lt → ppair_compare y x ≡ Ordering.gt
unfolding ppair_compare
ppair_flip_lt x y h = ground arith

ppair_flip_gt : (x y : Ppair) → ppair_compare x y ≡ Ordering.gt → ppair_compare y x ≡ Ordering.lt
unfolding ppair_compare
ppair_flip_gt x y h = ground arith

ppair_trans :
    (x y z : Ppair)
    → ppair_compare x y ≡ Ordering.lt
    → ppair_compare y z ≡ Ordering.lt
    → ppair_compare x z ≡ Ordering.lt
unfolding ppair_compare
ppair_trans x y z h k = ground arith

-- `ppair_compare` is a strict total order: each pair equals itself and nothing else, the two ways
-- round are opposite, and being below is transitive.
pub ppair_compare-IsOrder : IsOrder ppair_compare
ppair_compare-IsOrder = record {
  self = ppair_self;
  same = ppair_same;
  flip_lt = ppair_flip_lt;
  flip_gt = ppair_flip_gt;
  trans = ppair_trans;
}
