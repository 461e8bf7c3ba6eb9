-- ===== src/Exec/Moves.antt =====
-- Relations between the states before and after a handler, one rule for each way to build one.
use motmot.Base.{Bool, true, false, ◌≡◌, refl, Option, none, some, [], ◌∷◌, ◌++◌, if◌then◌else◌}
use motmot.Session.{Session, Bytes, Continuation}
use motmot.Exec.{
  World, Outcome, done, ended, fault, Fault, Event, M, pure, gets, emit, fail, assert, need,
  continue, option_case, call_connect, connects, ◌>>=◌,
}

abbrev pub Holds : {A : Type 0} → (World → Type 0) → Outcome A → Type 0
Holds P (done a w) = P w
Holds P (ended w) = Unit
Holds P (fault e) = Unit

-- Where `m` returns, the state that it leaves is related to the one that it found.
pub record Moves (R : World → World → Type 0) {A : Type 0} (m : M A) : Type 0 where
  pub run : (w : World) → Holds (R w) (m w)

-- A relation on states that a sequence of steps keeps, and that logging does not see.
pub record IsPath (R : World → World → Type 0) : Type 0 where
  pub stay : (w : World) → R w w
  pub join : (u v w : World) → R u v → R v w → R u w
  pub logged : (w : World) (e : Event) → R w (record w { out = w.out ++ e ∷ [] })

module _ {R : World → World → Type 0} (p : IsPath R) where
  pub Moves-pure : {A : Type 0} (a : A) → Moves R (pure a)
  unfolding pure
  Moves-pure a = record { run = λ w. p.stay w }

  pub Moves-gets : {A : Type 0} (f : Session → A) → Moves R (gets f)
  unfolding gets
  Moves-gets f = record { run = λ w. p.stay w }

  pub Moves-emit : (e : Event) → Moves R (emit e)
  unfolding emit
  Moves-emit e = record { run = λ w. p.logged w e }

  pub Moves-call_connect : (desc : Bytes) (k : Continuation) → Moves R (call_connect desc k)
  unfolding call_connect
  Moves-call_connect desc k = record { run = λ w. p.logged w (connects desc k) }

  pub Moves-fail : {A : Type 0} (e : Fault) → Moves R (fail {A = A} e)
  unfolding fail
  Moves-fail e = record { run = λ w. tt }

  pub Moves-assert : (b : Bool) → Moves R (assert b)
  unfolding assert
  Moves-assert true = record { run = λ w. p.stay w }
  Moves-assert false = record { run = λ w. tt }

  pub Moves-need : {A : Type 0} (e : Fault) (o : Option A) → Moves R (need e o)
  unfolding need
  Moves-need e none = record { run = λ w. tt }
  Moves-need e (some a) = record { run = λ w. p.stay w }

  pub Moves-if :
      {A : Type 0} (b : Bool) (m n : M A)
      → (b ≡ true → Moves R m)
      → (b ≡ false → Moves R n)
      → Moves R (if b then m else n)
  Moves-if true m n km kn = km refl
  Moves-if false m n km kn = kn refl

  pub Moves-option_case :
      {A B : Type 0} (o : Option A) (n : M B) (f : A → M B)
      → Moves R n
      → ((a : A) → Moves R (f a))
      → Moves R (option_case o n f)
  unfolding option_case
  Moves-option_case none n f kn kf = kn
  Moves-option_case (some a) n f kn kf = kf a

  pub Holds-join :
      {A : Type 0} (u v : World) (r : Outcome A) → R u v → Holds (R v) r → Holds (R u) r
  Holds-join u v (done a w) h k = p.join u v w h k
  Holds-join u v (ended w) h k = tt
  Holds-join u v (fault e) h k = tt

  Holds-continue :
      {A B : Type 0} (u : World) (r : Outcome A) (f : A → M B)
      → Holds (R u) r
      → ((a : A) → Moves R (f a))
      → Holds (R u) (continue r f)
  Holds-continue u (done a v) f h k = Holds-join u v (f a v) h ((k a).run v)
  Holds-continue u (ended v) f h k = tt
  Holds-continue u (fault e) f h k = tt

  pub Moves-bind :
      {A B : Type 0} (m : M A) (f : A → M B)
      → Moves R m
      → ((a : A) → Moves R (f a))
      → Moves R (m >>= f)
  unfolding ◌>>=◌
  Moves-bind m f km kf = record { run = λ w. Holds-continue w (m w) f (km.run w) kf }

  -- A read of the session, after which the rest may use that it is the current one.
  pub Moves-gets-bind :
      {A B : Type 0} (f : Session → A) (k : A → M B)
      → ((w : World) → Holds (R w) (k (f w.pax) w))
      → Moves R (gets f >>= k)
  unfolding ◌>>=◌ gets
  Moves-gets-bind f k h = record { run = h }

  -- A first step from a known state, and then a handler that moves by itself.
  pub Holds-bind :
      {A B : Type 0} (w : World) (m : M A) (k : A → M B)
      → Holds (R w) (m w)
      → ((a : A) → Moves R (k a))
      → Holds (R w) ((m >>= k) w)
  unfolding ◌>>=◌
  Holds-bind w m k h kk = Holds-continue w (m w) k h kk
