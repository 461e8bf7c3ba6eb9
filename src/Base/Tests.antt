-- ===== src/Base/Tests.antt =====
-- Boolean tests on native numbers, the conditional, and the arithmetic of `uint32_t`.
use Prim.Native.Nat.{ℕ, ◌+◌, ◌-◌, ◌%◌, ◌^◌, ◌<◌, compare, Ordering}
use mathlib.Core.Path.{◌≡◌, refl}
use mathlib.Core.Logic.{◌⊎◌, inl, inr}
use mathlib.Core.Bool.{Bool, true, false}
use mathlib.Core.Option.{Option, none, some}
use native.Mathlib.Omega.{arith}

abbrev pub ltb : ℕ → ℕ → Bool
ltb a b = elim (compare a b) [ Ordering.lt ↦ true | _ ↦ false ]

abbrev pub leb : ℕ → ℕ → Bool
leb a b = elim (compare a b) [ Ordering.gt ↦ false | _ ↦ true ]

infix 50 ◌==◌
abbrev pub ◌==◌ : ℕ → ℕ → Bool
a == b = elim (compare a b) [ Ordering.eq ↦ true | _ ↦ false ]

infix 1 if◌then◌else◌
abbrev pub if◌then◌else◌ {ℓ} : {A : Type ℓ} → Bool → A → A → A
if true then x else y = x
if false then x else y = y

pub ==-refl : (a : ℕ) → (a == a) ≡ true
==-refl a = ground arith

pub eq-of-== : (a b : ℕ) → (a == b) ≡ true → a ≡ b
eq-of-== a b h = ground arith

pub ==-false : (a b : ℕ) → (a ≡ b → ⊥) → (a == b) ≡ false
==-false a b h = ground arith

pub Bool-cases : (b : Bool) → (b ≡ true) ⊎ (b ≡ false)
Bool-cases true = inl refl
Bool-cases false = inr refl

pub Option-cases {ℓ} : {A : Type ℓ} (o : Option A) → (o ≡ none) ⊎ ((a : A) × (o ≡ some a))
Option-cases none = inl refl
Option-cases (some a) = inr (a, refl)

-- `uint32_t`, the type of `paxid_t` and of `unsigned`.
abbrev pub u32_mod : ℕ
u32_mod = 2 ^ 32

-- `++n`
unfoldable pub inc32 : ℕ → ℕ
inc32 n = (n + 1) % u32_mod

-- `n - 1`
unfoldable pub dec32 : ℕ → ℕ
dec32 n = (n + u32_mod - 1) % u32_mod

-- the conversion of a wider number to `uint32_t`
unfoldable pub to_u32 : ℕ → ℕ
to_u32 n = n % u32_mod

pub inc32_lem : (n : ℕ) → n + 1 < u32_mod → inc32 n ≡ n + 1
unfolding inc32
inc32_lem n h = omega arith

pub dec32_lem : (n : ℕ) → 0 < n → n < u32_mod → dec32 n + 1 ≡ n
unfolding dec32
dec32_lem n p h = omega arith

pub to_u32_lem : (n : ℕ) → n < u32_mod → to_u32 n ≡ n
unfolding to_u32
to_u32_lem n h = omega arith
