-- ===== src/Stable.antt =====
-- The relation between the states before and after a handler that keeps
-- the ilist sorted, and keeps each committed instance with its value. The rules are for the writes
-- of the handlers; the modules below apply them to the handlers of libmotmot/src/paxos_*.c.
pub mod Sends
pub mod Learning
pub mod Decrees
pub mod Messages
pub mod Dispatching
pub mod Promises
pub mod Votes
pub mod Cuts
pub mod Continuing
pub mod Runs
use motmot.Base.{
  ℕ, ◌≡◌, refl, sym, ap, ◌∙◌, Bool, true, false, Option, none, some, List, [], ◌∷◌, ◌++◌, arith,
  ◌==◌, eq-of-==, inl, inr, Bool-cases, Option-cases, if◌then◌else◌,
}
use motmot.Session.{Instance, Session}
use motmot.SessionLocal.{inum_of, get_at, set_at, instance_insert}
use motmot.SessionLocal.Tables.{
  Increasing, set_at-Increasing, get_at-set_at_ne, get_at-set_at_self, insert_rev-Increasing,
  get_at-insert_rev,
}
use motmot.Util.{write_instance, instance_insert_and_upstart}
use motmot.Exec.{World, Event, M, modify, Outcome, done, ended, fault}
use motmot.Exec.Moves.{
  Moves, Holds, IsPath, Moves-pure, Moves-gets, Moves-emit, Moves-fail, Moves-assert, Moves-need,
  Moves-if, Moves-bind, Moves-option_case, Moves-call_connect,
}

-- `j` is `i`, or what a committed `i` may become.
pub record Same (i j : Instance) : Type 0 where
  pub committed : j.pi_committed ≡ true
  pub value : j.pi_val ≡ i.pi_val

abbrev pub Kept : List Instance → List Instance → Type 0
Kept l m =
    (n : ℕ) (i : Instance)
    → get_at inum_of n l ≡ some i
    → i.pi_committed ≡ true
    → (j : Instance) × (get_at inum_of n m ≡ some j) × Same i j

pub record Ext (l m : List Instance) : Type 0 where
  pub sorted : Increasing inum_of m
  pub kept : Kept l m

pub record Stays (u w : World) : Type 0 where
  pub ext : Increasing inum_of u.pax.ilist → Ext u.pax.ilist w.pax.ilist

Ext-refl : (l : List Instance) → Increasing inum_of l → Ext l l
Ext-refl l s = record {
  sorted = s;
  kept = λ n i e c. (i, e, record { committed = c; value = refl });
}

Ext-trans : (l m k : List Instance) → Ext l m → Ext m k → Ext l k
Ext-trans l m k a b = record {
  sorted = b.sorted;
  kept = λ n i e c.
      let (j, ej, sj) = a.kept n i e c in
      let (h, eh, sh) = b.kept n j ej sj.committed in
      (h, eh, record { committed = sh.committed; value = sh.value ∙ sj.value });
}

-- Staying is a path of states.
pub Stays-IsPath : IsPath Stays
Stays-IsPath = record {
  stay = λ w. record { ext = Ext-refl w.pax.ilist };
  join = λ u v w a b. record {
    ext = λ s. let x = a.ext s in Ext-trans u.pax.ilist v.pax.ilist w.pax.ilist x (b.ext x.sorted);
  };
  logged = λ w e. record { ext = Ext-refl w.pax.ilist };
}

-- An update of the session that leaves the ilist alone.
pub Stays-modify :
    (f : Session → Session) → ((s : Session) → (f s).ilist ≡ s.ilist) → Moves Stays (modify f)
unfolding modify
Stays-modify f h = record { run = λ w. record { ext = λ s. rw (h w.pax) (Ext-refl w.pax.ilist s) } }

-- What a write may do to the instance that it reaches.
pub record Writes (n : ℕ) (f : Instance → Instance) : Type 0 where
  pub number : (x : Instance) → inum_of x ≡ n → inum_of (f x) ≡ n
  pub value : (x : Instance) → x.pi_committed ≡ true → Same x (f x)

set_at-Ext :
    (n : ℕ) (f : Instance → Instance) (l : List Instance)
    → ((x : Instance) → inum_of x ≡ n → inum_of (f x) ≡ n)
    → ((x : Instance) → get_at inum_of n l ≡ some x → x.pi_committed ≡ true → Same x (f x))
    → Increasing inum_of l
    → Ext l (set_at inum_of n f l)
set_at-Ext n f l num val s = record {
  sorted = set_at-Increasing inum_of n f l num s;
  kept = λ m i e c. elim (Bool-cases (n == m)) [
    | inl h ↦
        let p = eq-of-== n m h in
        let e' : get_at inum_of n l ≡ some i = rw p e in
        (f i, rw (← p) (get_at-set_at_self inum_of n f l i num e'), val i e' c)
    | inr h ↦ (
      i,
      get_at-set_at_ne inum_of n m f l (λ p. ground arith) num ∙ e,
      record { committed = c; value = refl },
    )
  ];
}

-- A write through a pointer, where the instance that is there allows it.
pub Stays-write :
    (n : ℕ) (f : Instance → Instance) (w : World)
    → ((x : Instance) → inum_of x ≡ n → inum_of (f x) ≡ n)
    → ((x : Instance)
        → get_at inum_of n w.pax.ilist ≡ some x
        → x.pi_committed ≡ true
        → Same x (f x))
    → Stays w (record w { pax = write_instance n f w.pax })
unfolding write_instance
Stays-write n f w num val = record { ext = set_at-Ext n f w.pax.ilist num val }

pub Stays-write_any :
    (n : ℕ) (f : Instance → Instance) → Writes n f → Moves Stays (modify (write_instance n f))
unfolding modify
Stays-write_any n f h = record { run = λ w. Stays-write n f w h.number (λ x _. h.value x) }

-- An insertion leaves each instance that is there.
pub Stays-insert : (inst : Instance) → Moves Stays (modify (instance_insert_and_upstart inst))
unfolding modify instance_insert_and_upstart instance_insert
Stays-insert inst = record {
  run = λ w. record {
    ext = λ s. record {
      sorted = insert_rev-Increasing inum_of inst w.pax.ilist s;
      kept = λ n i e c. (
        i,
        get_at-insert_rev inum_of inst w.pax.ilist n i s e,
        record { committed = c; value = refl },
      );
    };
  };
}

-- A proof may use that the list was sorted before.
pub Holds-sorted :
    {A : Type 0} (u : World) (r : Outcome A)
    → (Increasing inum_of u.pax.ilist → Holds (Stays u) r)
    → Holds (Stays u) r
Holds-sorted u (done a w) h = record { ext = λ s. (h s).ext s }
Holds-sorted u (ended w) h = tt
Holds-sorted u (fault e) h = tt

pub ruleset stays_rules = (
  Moves-pure, Moves-gets, Moves-emit, Moves-fail, Moves-assert, Moves-need, Moves-if, Moves-bind,
  Moves-option_case, Moves-call_connect, Stays-IsPath, Stays-modify, Stays-insert,
)
