-- ===== src/Lead.antt =====
-- Handlers in a session that is its own proposer: they leave it so, put off no instance, and do not
-- run out of fuel. One rule for each way to build one.
use motmot.Base.{ℕ, Bool, true, false, ◌≡◌, refl, ◌∙◌, Option, none, some, if◌then◌else◌}
use motmot.Session.{Session, Bytes, Continuation}
use motmot.Exec.{
  World, Outcome, done, ended, fault, Fault, Event, M, pure, gets, modify, emit, fail, assert, need,
  continue, option_case, call_connect, ◌>>=◌,
}
use motmot.Exec.Fuel.{Genuine}
pub mod Sends
pub mod Learning
pub mod Deferred

pub record Leads (s : Session) : Type 0 where
  pub leader : s.proposer ≡ some s.self_id

-- The state after such a handler.
pub record Leading (u w : World) : Type 0 where
  pub leads : Leads w.pax
  pub idefer : w.pax.idefer ≡ u.pax.idefer
  pub self : w.pax.self_id ≡ u.pax.self_id

abbrev pub Led : {A : Type 0} → World → Outcome A → Type 0
Led u (done a w) = Leading u w
Led u (ended w) = Unit
Led u (fault e) = Genuine e

pub record Leader {A : Type 0} (m : M A) : Type 0 where
  pub run : (w : World) → Leads w.pax → Led w (m w)

pub Led-join : {A : Type 0} (u v : World) (r : Outcome A) → Leading u v → Led v r → Led u r
Led-join u v (done a w) h k = record {
  leads = k.leads;
  idefer = k.idefer ∙ h.idefer;
  self = k.self ∙ h.self;
}
Led-join u v (ended w) h k = tt
Led-join u v (fault e) h k = k

Led-continue :
    {A B : Type 0} (u : World) (r : Outcome A) (k : A → M B)
    → Led u r
    → ((a : A) (v : World) → Leading u v → Led u (k a v))
    → Led u (continue r k)
Led-continue u (done a v) k h g = g a v h
Led-continue u (ended v) k h g = tt
Led-continue u (fault e) k h g = h

pub Led-bind :
    {A B : Type 0} (w : World) (m : M A) (k : A → M B)
    → Led w (m w)
    → ((a : A) (v : World) → Leading w v → Led w (k a v))
    → Led w ((m >>= k) w)
unfolding ◌>>=◌
Led-bind w m k h g = Led-continue w (m w) k h g

-- A step whose outcome is known.
pub Led-known :
    {A B : Type 0} (w v : World) (m : M A) (k : A → M B) (a : A)
    → m w ≡ done a v
    → Led w (k a v)
    → Led w ((m >>= k) w)
unfolding ◌>>=◌
Led-known w v m k a e h = rw e h

pub Led-gets :
    {A B : Type 0} (w : World) (f : Session → A) (k : A → M B)
    → Led w (k (f w.pax) w)
    → Led w ((gets f >>= k) w)
unfolding ◌>>=◌ gets
Led-gets w f k h = h

pub Led-if :
    {A : Type 0} (w : World) (b : Bool) (m n : M A)
    → Led w (m w)
    → (b ≡ false → Led w (n w))
    → Led w ((if b then m else n) w)
Led-if w true m n h k = h
Led-if w false m n h k = k refl

pub Led-option_case :
    {A B : Type 0} (w : World) (o : Option A) (n : M B) (f : A → M B)
    → Led w (n w)
    → ((a : A) → Led w (f a w))
    → Led w (option_case o n f w)
unfolding option_case
Led-option_case w none n f h k = h
Led-option_case w (some a) n f h k = k a

pub Leader-pure : {A : Type 0} (a : A) → Leader (pure a)
unfolding pure
Leader-pure a = record { run = λ w h. record { leads = h; idefer = refl; self = refl } }

pub Leader-gets : {A : Type 0} (f : Session → A) → Leader (gets f)
unfolding gets
Leader-gets f = record { run = λ w h. record { leads = h; idefer = refl; self = refl } }

pub Leader-emit : (e : Event) → Leader (emit e)
unfolding emit
Leader-emit e = record {
  run = λ w h. record { leads = record { leader = h.leader }; idefer = refl; self = refl };
}

pub Leader-call_connect : (d : Bytes) (k : Continuation) → Leader (call_connect d k)
unfolding call_connect
Leader-call_connect d k = record {
  run = λ w h. record { leads = record { leader = h.leader }; idefer = refl; self = refl };
}

-- An update of the session that leaves its proposer, itself and what it has put off.
pub Leader-modify :
    (f : Session → Session)
    → ((s : Session) → (f s).proposer ≡ s.proposer)
    → ((s : Session) → (f s).self_id ≡ s.self_id)
    → ((s : Session) → (f s).idefer ≡ s.idefer)
    → Leader (modify f)
unfolding modify
Leader-modify f p q r = record {
  run = λ w h. record {
    leads = record { leader = rw (p w.pax, q w.pax) h.leader };
    idefer = r w.pax;
    self = q w.pax;
  };
}

pub Leader-fail : {A : Type 0} (e : Fault) → Genuine e → Leader (fail {A = A} e)
unfolding fail
Leader-fail e g = record { run = λ w h. g }

pub Leader-assert : (b : Bool) → Leader (assert b)
unfolding assert
Leader-assert true = record { run = λ w h. record { leads = h; idefer = refl; self = refl } }
Leader-assert false = record { run = λ w h. tt }

pub Leader-need : {A : Type 0} (e : Fault) (o : Option A) → Genuine e → Leader (need e o)
unfolding need
Leader-need e none g = record { run = λ w h. g }
Leader-need e (some a) g = record { run = λ w h. record { leads = h; idefer = refl; self = refl } }

pub Leader-if :
    {A : Type 0} (b : Bool) (m n : M A) → Leader m → Leader n → Leader (if b then m else n)
Leader-if true m n h k = h
Leader-if false m n h k = k

pub Leader-else :
    {A : Type 0} (b : Bool) (m n : M A) → b ≡ false → Leader n → Leader (if b then m else n)
Leader-else b m n e h = rw e h

pub Leader-option_case :
    {A B : Type 0} (o : Option A) (n : M B) (f : A → M B)
    → Leader n
    → ((a : A) → Leader (f a))
    → Leader (option_case o n f)
unfolding option_case
Leader-option_case none n f h k = h
Leader-option_case (some a) n f h k = k a

pub Leader-bind :
    {A B : Type 0} (m : M A) (k : A → M B) → Leader m → ((a : A) → Leader (k a)) → Leader (m >>= k)
Leader-bind m k h g = record {
  run = λ w s. Led-bind w m k (h.run w s) (λ a v l. Led-join w v (k a v) l ((g a).run v l.leads));
}

pub ruleset lead_rules = (
  Leader-pure, Leader-gets, Leader-emit, Leader-call_connect, Leader-modify, Leader-fail,
  Leader-assert, Leader-need, Leader-if, Leader-option_case, Leader-bind,
)
