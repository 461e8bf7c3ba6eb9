-- ===== src/Exec.antt =====
-- How the handlers run. A handler reads and writes the session to which `pax` is bound, and appends
-- to a log of what leaves libmotmot: messages to peers, and calls of the client's callbacks. It
-- returns, or it has ended the session (`paxos_end` frees it and returns 1, and every caller passes
-- that 1 on without touching the session again), or it faults.
use motmot.Base.{ℕ, Bool, true, false, List, [], ◌∷◌, ◌++◌, Option, none, some}
use motmot.Msgpack.{Tok}
use motmot.Session.{Bytes, Session, Continuation}
pub mod Moves
pub mod Fuel
pub mod Returns

pub data Event : Type 0 where
  send : ℕ → List Tok → Event
  learn_chat learn_join learn_part : Bytes → Bytes → ℕ → Event
  connects : Bytes → Continuation → Event
  leave : ℕ → Event
  peer_destroyed : ℕ → Event
  -- `g_timeout_add_seconds(1, paxos_sync, uuid)`
  sync_timer : ℕ → Event

-- `out_of_fuel` is a loop of the model that was given too little fuel.
-- A failed `assert`; a read through NULL, through a pointer to what is no node, or into a session that
-- has been freed. `off_list` is where the model stops: the code goes on to insert after a node that has
-- been taken off the ilist, to replace it, to decree it, or to learn it.
pub data Fault : Type 0 where
  assert_failed null_deref dangling off_list use_after_free out_of_fuel : Fault

-- `connect` is what the client's connection callback returns for a descriptor; `freed_data` is what
-- a read of the field `client_data` of a freed session gives.
pub record World : Type 0 where
  pub connect : Bytes → ℕ
  pub freed_data : ℕ
  pub pax : Session
  pub out : List Event

pub data Outcome (A : Type 0) : Type 0 where
  done : A → World → Outcome A
  ended : World → Outcome A
  fault : Fault → Outcome A

abbrev pub M : Type 0 → Type 0
M A = World → Outcome A

unfoldable pub pure : {A : Type 0} → A → M A
pure a w = done a w

unfoldable pub gets : {A : Type 0} → (Session → A) → M A
gets f w = done (f w.pax) w

unfoldable pub modify : (Session → Session) → M (Unit {0})
modify f w = done tt (record w { pax = f w.pax })

unfoldable pub emit : Event → M (Unit {0})
emit e w = done tt (record w { out = w.out ++ e ∷ [] })

-- `state.connect(desc, size, &k->pk_cb)`, for a client that returns before it calls the continuation.
unfoldable pub call_connect : Bytes → Continuation → M ℕ
call_connect desc k w = done (w.connect desc) (record w { out = w.out ++ connects desc k ∷ [] })

unfoldable pub fail : {A : Type 0} → Fault → M A
fail e w = fault e

unfoldable pub assert : Bool → M (Unit {0})
assert true w = done tt w
assert false w = fault assert_failed

-- The value behind a pointer.
unfoldable pub need : {A : Type 0} → Fault → Option A → M A
need e none w = fault e
need e (some a) w = done a w

-- The two ways on from a pointer that may be NULL.
unfoldable pub option_case : {A B : Type 0} → Option A → M B → (A → M B) → M B
option_case none n f = n
option_case (some a) n f = f a

abbrev pub continue : {A B : Type 0} → Outcome A → (A → M B) → Outcome B
continue (done a w) f = f a w
continue (ended w) f = ended w
continue (fault e) f = fault e

infixl 5 ◌>>=◌ ◌>>◌
unfoldable pub ◌>>=◌ : {A B : Type 0} → M A → (A → M B) → M B
◌>>=◌ m f w = continue (m w) f

abbrev pub ◌>>◌ : {B : Type 0} → M (Unit {0}) → M B → M B
m >> k = m >>= λ _. k
