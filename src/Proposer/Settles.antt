-- ===== src/Proposer/Settles.antt =====
-- How the loop over the votes of a promise ends (proposer_ack_promise of
-- libmotmot/src/paxos_proposer.c).
use motmot.Base.{◌≡◌, some, List}
use motmot.Session.{Instance, Ref, null, list_head, at, off, scratch}
use motmot.SessionLocal.{inum_of, get_at}
use motmot.Msgpack.{Objs}
use motmot.Proposer.Raises.{Adopts}
use motmot.Proposer.Adopts.{votes}
use motmot.Exec.{M, World, Fault, Outcome, done, ended, fault, assert_failed}

-- The session has not ended.
abbrev Open : {A : Type 0} → Outcome A → Type 0
Open (done a w) = Unit
Open (ended w) = ⊥
Open (fault e) = Unit

-- It returns this.
abbrev Gives : {A : Type 0} → A → M A → World → Type 0
Gives a m w = (v : World) × (m w ≡ done a v)

-- A node of the ilist.
abbrev pub Listed : Ref → List Instance → Type 0
Listed null l = ⊥
Listed list_head l = ⊥
Listed (at n) l = (x : Instance) × (get_at inum_of n l ≡ some x)
Listed (off i r) l = ⊥
Listed (scratch i r) l = ⊥

-- How the loop ends: with the votes taken over; or with an assertion that a vote fails; or, not from
-- a node of the ilist, with any fault.
pub data Settles (iter : Ref) (os : Objs) (l : List Instance) : Outcome (Unit {0}) → Type 0 where
  adopts : (w : World) → Adopts (votes os) l w.pax.ilist → Settles iter os l (done tt w)
  refuses : Settles iter os l (fault assert_failed)
  strays : (e : Fault) → (Listed iter l → ⊥) → Settles iter os l (fault e)

abbrev Returned : Outcome (Unit {0}) → Type 0
Returned (done a w) = Unit
Returned (ended w) = ⊥
Returned (fault e) = ⊥
