-- ===== src/Exec/Returns.antt =====
-- What a handler that has returned tells of its parts.
use motmot.Base.{
  ◌≡◌, refl, sym, ap, subst, Bool, true, false, Option, none, some, ◌⊎◌, inl, inr, if◌then◌else◌,
  arith,
}
use motmot.Session.{Session}
use motmot.Exec.{
  pure, M, World, Outcome, done, ended, fault, Fault, continue, modify, gets, assert, fail, need,
  option_case, ◌>>=◌, ◌>>◌,
}
use motmot.Exec.Moves.{Moves, Holds}

continue-done :
    {A B : Type 0} (o : Outcome A) (k : A → M B) (r : B) (w' : World)
    → continue o k ≡ done r w'
    → (a : A) × (v : World) × (o ≡ done a v) × (k a v ≡ done r w')
continue-done (done a v) k r w' e = (a, v, refl, e)
continue-done (ended v) k r w' e = ground arith
continue-done (fault x) k r w' e = ground arith

-- Where a handler returns, each part of it has.
pub bind-done :
    {A B : Type 0} (m : M A) (k : A → M B) (w w' : World) (r : B)
    → (m >>= k) w ≡ done r w'
    → (a : A) × (v : World) × (m w ≡ done a v) × (k a v ≡ done r w')
unfolding ◌>>=◌
bind-done m k w w' r e = continue-done (m w) k r w' e

pub modify-done :
    {B : Type 0} {r : B} (f : Session → Session) (k : M B) (w w' : World)
    → (modify f >> k) w ≡ done r w'
    → k (record w { pax = f w.pax }) ≡ done r w'
unfolding ◌>>=◌ modify
modify-done f k w w' e = e

pub gets-done :
    {A B : Type 0} {r : B} (f : Session → A) (k : A → M B) (w w' : World)
    → (gets f >>= k) w ≡ done r w'
    → k (f w.pax) w ≡ done r w'
unfolding ◌>>=◌ gets
gets-done f k w w' e = e

pub need-done :
    {A : Type 0} (x : Fault) (o : Option A) (w v : World) (a : A)
    → need x o w ≡ done a v
    → o ≡ some a
unfolding need
need-done x none w v a e = ground arith
need-done x (some b) w v a e = ground arith

unfoldable left_by : {A : Type 0} → World → Outcome A → World
left_by w (done a v) = v
left_by w (ended v) = v
left_by w (fault x) = w

pub pure-done : {A : Type 0} (a b : A) (w v : World) → pure a w ≡ done b v → v ≡ w
unfolding pure left_by
pure-done a b w v e = sym (ap (left_by w) e)

pub assert-keeps : (b : Bool) (w v : World) (a : Unit {0}) → assert b w ≡ done a v → v ≡ w
unfolding assert left_by
assert-keeps true w v a e = sym (ap (left_by w) e)
assert-keeps false w v a e = ground arith

pub need-keeps :
    {A : Type 0} (x : Fault) (o : Option A) (w v : World) (a : A) → need x o w ≡ done a v → v ≡ w
unfolding need left_by
need-keeps x none w v a e = ground arith
need-keeps x (some b) w v a e = sym (ap (left_by w) e)

-- Which way a handler went.
pub if-done :
    {B : Type 0} {r : B} (b : Bool) (m n : M B) (w w' : World)
    → (if b then m else n) w ≡ done r w'
    → ((b ≡ true) × (m w ≡ done r w')) ⊎ ((b ≡ false) × (n w ≡ done r w'))
if-done true m n w w' e = inl (refl, e)
if-done false m n w w' e = inr (refl, e)

pub option_case-done :
    {A B : Type 0} {r : B} (o : Option A) (n : M B) (f : A → M B) (w w' : World)
    → option_case o n f w ≡ done r w'
    → ((o ≡ none) × (n w ≡ done r w')) ⊎ ((a : A) × (o ≡ some a) × (f a w ≡ done r w'))
unfolding option_case
option_case-done none n f w w' e = inl (refl, e)
option_case-done (some a) n f w w' e = inr (a, refl, e)

pub fail-done : {A : Type 0} (x : Fault) (w v : World) (a : A) → fail x w ≡ done a v → ⊥
unfolding fail
fail-done x w v a e = ground arith

pub assert-done : (b : Bool) (w v : World) (a : Unit {0}) → assert b w ≡ done a v → b ≡ true
unfolding assert
assert-done true w v a e = refl
assert-done false w v a e = ground arith

pub after :
    {A : Type 0} (R : World → World → Type 0) (m : M A) (w v : World) (a : A)
    → Moves R m
    → m w ≡ done a v
    → R w v
after R m w v a h e = subst (Holds (R w)) e (h.run w)
