-- ===== src/Exec/Fuel.antt =====
-- That a handler does not run out of fuel, one rule for each way to build one.
use motmot.Base.{◌≢◌, subst, Bool, true, false, Option, none, some, if◌then◌else◌}
use motmot.Session.{Session}
use motmot.Exec.{
  World, Outcome, done, ended, fault, Fault, assert_failed, null_deref, dangling, off_list,
  use_after_free, out_of_fuel, Event, M, pure, gets, modify, emit, fail, need, continue,
  option_case, ◌>>=◌,
}
use motmot.Exec.Moves.{Holds}

-- A fault of the code, not of the model's fuel.
abbrev pub Genuine : Fault → Type 0
Genuine assert_failed = Unit
Genuine null_deref = Unit
Genuine dangling = Unit
Genuine off_list = Unit
Genuine use_after_free = Unit
Genuine out_of_fuel = ⊥

abbrev pub Fueled : {A : Type 0} → Outcome A → Type 0
Fueled (done a w) = Unit
Fueled (ended w) = Unit
Fueled (fault e) = Genuine e

pub Fueled-ne : {A : Type 0} (r : Outcome A) → Fueled r → r ≢ fault out_of_fuel
Fueled-ne r h e = subst Fueled e h

pub record Enough {A : Type 0} (m : M A) : Type 0 where
  pub run : (w : World) → Fueled (m w)

pub Enough-pure : {A : Type 0} (a : A) → Enough (pure a)
unfolding pure
Enough-pure a = record { run = λ w. tt }

pub Enough-gets : {A : Type 0} (f : Session → A) → Enough (gets f)
unfolding gets
Enough-gets f = record { run = λ w. tt }

pub Enough-modify : (f : Session → Session) → Enough (modify f)
unfolding modify
Enough-modify f = record { run = λ w. tt }

pub Enough-emit : (e : Event) → Enough (emit e)
unfolding emit
Enough-emit e = record { run = λ w. tt }

pub Enough-null : {A : Type 0} → Enough (fail {A = A} null_deref)
unfolding fail
Enough-null = record { run = λ w. tt }

pub Enough-need : {A : Type 0} (o : Option A) → Enough (need dangling o)
unfolding need
Enough-need none = record { run = λ w. tt }
Enough-need (some a) = record { run = λ w. tt }

pub Enough-if :
    {A : Type 0} (b : Bool) (m n : M A) → Enough m → Enough n → Enough (if b then m else n)
Enough-if true m n h k = h
Enough-if false m n h k = k

pub Enough-option_case :
    {A B : Type 0} (o : Option A) (n : M B) (f : A → M B)
    → Enough n
    → ((a : A) → Enough (f a))
    → Enough (option_case o n f)
unfolding option_case
Enough-option_case none n f h k = h
Enough-option_case (some a) n f h k = k a

continued_Fueled :
    {A B : Type 0} (P : World → Type 0) (r : Outcome A) (k : A → M B)
    → Fueled r
    → Holds P r
    → ((a : A) (v : World) → P v → Fueled (k a v))
    → Fueled (continue r k)
continued_Fueled P (done a v) k f h g = g a v h
continued_Fueled P (ended v) k f h g = tt
continued_Fueled P (fault e) k f h g = f

-- What follows may use what holds after the first handler.
pub Fueled-bind :
    {A B : Type 0} (P : World → Type 0) (m : M A) (k : A → M B) (w : World)
    → Fueled (m w)
    → Holds P (m w)
    → ((a : A) (v : World) → P v → Fueled (k a v))
    → Fueled ((m >>= k) w)
unfolding ◌>>=◌
Fueled-bind P m k w f h g = continued_Fueled P (m w) k f h g

returned : {A : Type 0} (r : Outcome A) → Holds (λ v. Unit) r
returned (done a v) = tt
returned (ended v) = tt
returned (fault e) = tt

pub Enough-bind :
    {A B : Type 0} (m : M A) (k : A → M B) → Enough m → ((a : A) → Enough (k a)) → Enough (m >>= k)
Enough-bind m k h g = record {
  run = λ w. Fueled-bind (λ v. Unit) m k w (h.run w) (returned (m w)) (λ a v _. (g a).run v);
}

pub ruleset enough_rules = (
  Enough-pure, Enough-gets, Enough-modify, Enough-emit, Enough-null, Enough-need, Enough-if,
  Enough-option_case, Enough-bind,
)
