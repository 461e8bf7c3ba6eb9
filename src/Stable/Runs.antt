-- ===== src/Stable/Runs.antt =====
-- Runs of a session: messages, requests of the client, lost connections, continuations and the sync
-- timer, one after another (paxos.c, paxos_continue.h, paxos_sync.c, motmot.c).
use motmot.Base.{ℕ, ◌≡◌, ◌≤◌, refl, sym, ◌∙◌, List, subst, true, Option, some, arith, inl, inr, leb}
use motmot.Core.{Header, Dkind, Value, dec_join}
use motmot.Util.{header_init}
use motmot.State.{started}
use motmot.Session.{Bytes, Instance, Request}
use motmot.Msgpack.{Obj}
use motmot.SessionLocal.{inum_of, get_at}
use motmot.SessionLocal.Tables.{Increasing}
use motmot.Request.{paxos_request}
use motmot.Sync.{proposer_sync, ilist_truncate_prefix}
use motmot.Sync.Truncate.{get_at-truncate}
use motmot.Dispatch.{session_dispatch, connectinuate, drop_connection}
use motmot.Exec.{World, Outcome, done}
use motmot.Exec.Moves.{Holds}
use motmot.Stable.{Stays, Same}
use motmot.Stable.Messages.{Stays-request, Stays-sync}
use motmot.Stable.Cuts.{Cuts, Effect, session_dispatch-Effect}
use motmot.Stable.Continuing.{Safe, Stays-drop_connection, connectinuate-Stays}

-- One step of a session: what may happen to it, where the handler returns. `b` bounds the base at
-- which a message may cut the ilist.
pub data Step (b : ℕ) : World → World → Type 0 where
  message :
      (source : ℕ) (hdr : Header) (o : Obj) (r : ℕ) (w w' : World)
      → session_dispatch source hdr o w ≡ done r w'
      → w'.pax.ibase ≤ b
      → Step b w w'
  request :
      (k : Dkind) (msg : Bytes) (r : ℕ) (w w' : World)
      → paxos_request k msg w ≡ done r w'
      → Step b w w'
  drop : (source r : ℕ) (w w' : World) → drop_connection source w ≡ done r w' → Step b w w'
  continuation :
      (place : ℕ) (chan : Option ℕ) (r : ℕ) (w w' : World)
      → Safe place w
      → connectinuate place chan w ≡ done r w'
      → Step b w w'
  timer : (r : ℕ) (w w' : World) → proposer_sync w ≡ done r w' → Step b w w'

-- A run: any number of steps.
pub data Run (b : ℕ) : World → World → Type 0 where
  rest : (w : World) → Run b w w
  step : (u v w : World) → Step b u v → Run b v w → Run b u w

-- What is kept from a number on.
abbrev KeptFrom : ℕ → List Instance → List Instance → Type 0
KeptFrom b l m =
    (n : ℕ) (i : Instance)
    → b ≤ n
    → get_at inum_of n l ≡ some i
    → i.pi_committed ≡ true
    → (j : Instance) × (get_at inum_of n m ≡ some j) × Same i j

abbrev From : ℕ → World → World → Type 0
From b u w =
    Increasing inum_of u.pax.ilist
    → Increasing inum_of w.pax.ilist × KeptFrom b u.pax.ilist w.pax.ilist

Stays-From : (b : ℕ) (u w : World) → Stays u w → From b u w
Stays-From b u w h s = let x = h.ext s in (x.sorted, λ n i _ e c. x.kept n i e c)

cut_kept :
    (b base : ℕ) (l : List Instance) (rcache : List Request)
    → base ≤ b
    → Increasing inum_of l
    → KeptFrom b l (ilist_truncate_prefix base l rcache).0
cut_kept b base l rcache h s n i k e c =
    let test : leb base n ≡ true = ground arith in
    let same = (get_at-truncate base n l rcache s).0 in
    (i, rw (same, test) e, record { committed = c; value = refl })

Cuts-From : (b : ℕ) (u w : World) → w.pax.ibase ≤ b → Cuts u w → From b u w
Cuts-From b u w h (inl e) s = rw e (s, λ n i _ g c. (i, g, record { committed = c; value = refl }))
Cuts-From b u w h (inr (rcache, e)) s = rw e (
  (get_at-truncate w.pax.ibase 0 u.pax.ilist rcache s).1,
  cut_kept b w.pax.ibase u.pax.ilist rcache h s,
)

From-join : (b : ℕ) (u v w : World) → From b u v → From b v w → From b u w
From-join b u v w f g s =
    let (sv, kv) = f s in
    let (sw, kw) = g sv in
    (
      sw,
      λ n i h e c.
          let (j, ej, same) = kv n i h e c in
          let (k, ek, later) = kw n j h ej same.committed in
          (k, ek, record { committed = later.committed; value = later.value ∙ same.value }),
    )

moved :
    (b : ℕ) (w w' : World) (r : ℕ) (o : Outcome ℕ) → Holds (Stays w) o → o ≡ done r w' → From b w w'
moved b w w' r o h e =
    let held : Holds (Stays w) (done r w') = subst (Holds (Stays w)) e h in Stays-From b w w' held

Step-From : (b : ℕ) (u v : World) → Step b u v → From b u v
Step-From b u v (message source hdr o r w w' e h) =
    let held : Holds (Effect w) (done r w') =
      subst (Holds (Effect w)) e (session_dispatch-Effect source hdr o w) in
    elim held [ inl x ↦ Stays-From b w w' x | inr x ↦ Cuts-From b w w' h x ]
Step-From b u v (request k msg r w w' e) = moved b w w' r _ ((Stays-request k msg).run w) e
Step-From b u v (drop source r w w' e) = moved b w w' r _ ((Stays-drop_connection source).run w) e
Step-From b u v (continuation place chan r w w' h e) =
    moved b w w' r _ (connectinuate-Stays place chan w h) e
Step-From b u v (timer r w w' e) = moved b w w' r _ (Stays-sync.run w) e

Run-From : (b : ℕ) (u w : World) → Run b u w → From b u w
Run-From b u w (rest v) = λ s. (s, λ n i h e c. (i, e, record { committed = c; value = refl }))
Run-From b u w (step x y z s r) = From-join b x y z (Step-From b x y s) (Run-From b y z r)

pub Run-keeps_committed :
    (b : ℕ) (w w' : World)
    → Run b w w'
    → Increasing inum_of w.pax.ilist
    → Increasing inum_of w'.pax.ilist
      × ((n : ℕ) (i : Instance)
          → b ≤ n
          → get_at inum_of n w.pax.ilist ≡ some i
          → i.pi_committed ≡ true
          → (j : Instance) × (get_at inum_of n w'.pax.ilist ≡ some j)
            × (j.pi_committed ≡ true)
            × (j.pi_val ≡ i.pi_val))
Run-keeps_committed b w w' run s =
    let (sorted, kept) = Run-From b w w' run s in
    (sorted, λ n i h g c. let (j, ej, same) = kept n i h g c in (j, ej, same.committed, same.value))

-- The founder's own join, as `paxos_start` puts it in the log.
abbrev pub founder_join : Value
founder_join = record { pv_dkind = dec_join; pv_reqid = record { id = 1; gen = 1 }; pv_extra = 0 }

started-Increasing :
    (uuid client : ℕ) (desc : Bytes) → Increasing inum_of (started uuid client desc).ilist
unfolding started header_init
started-Increasing uuid client desc = (tt, tt)

started-founder_join :
    (uuid client : ℕ) (desc : Bytes)
    → (i : Instance) × (get_at inum_of 1 (started uuid client desc).ilist ≡ some i)
      × (i.pi_committed ≡ true)
      × (i.pi_val ≡ founder_join)
unfolding started header_init get_at
started-founder_join uuid client desc = (_, refl, refl, refl)

-- From the session that `paxos_start` sets up, any run as above in which no message cuts the ilist
-- above 1 leads to a session with a sorted ilist, whose instance 1 is committed and has the founder's
-- join as its value.
pub started-Run :
    (uuid client : ℕ) (desc : Bytes) (w w' : World)
    → w.pax ≡ started uuid client desc
    → Run 1 w w'
    → Increasing inum_of w'.pax.ilist
      × ((j : Instance) × (get_at inum_of 1 w'.pax.ilist ≡ some j)
          × (j.pi_committed ≡ true)
          × (j.pi_val ≡ founder_join))
started-Run uuid client desc w w' e run =
    let (i, g, c, v) = started-founder_join uuid client desc in
    let sorted =
      subst (λ s. Increasing inum_of s.ilist) (sym e) (started-Increasing uuid client desc) in
    let found = subst (λ s. get_at inum_of 1 s.ilist ≡ some i) (sym e) g in
    let (after, kept) = Run-keeps_committed 1 w w' run sorted in
    let (j, ej, cj, vj) = kept 1 i (omega arith) found c in (after, (j, ej, cj, vj ∙ v))
