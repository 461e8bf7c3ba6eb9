-- ===== src/Sync/Truncate.antt =====
-- What a truncation of the log keeps (libmotmot/src/paxos_sync.c).
use motmot.Base.{
  ℕ, ◌≤◌, ◌<◌, ◌≡◌, List, [], ◌∷◌, none, All, All-mono, Option-cases, inl, inr, arith, leb,
  if◌then◌else◌, dec32,
}
use motmot.Session.{Instance, Request, Session, Sync}
use motmot.SessionLocal.{inum_of, get_at}
use motmot.SessionLocal.Tables.{Increasing, get_at-Over}
use motmot.Sync.{drop_request, ilist_truncate_prefix, ack_last, sync_point}

-- Truncating below a number, in a list that is sorted, removes the instances below that number and
-- keeps the others, whatever requests are cached; and the list stays sorted.
pub get_at-truncate :
    (inum n : ℕ) (l : List Instance) (rcache : List Request)
    → Increasing inum_of l
    → (get_at inum_of n (ilist_truncate_prefix inum l rcache).0
        ≡ (if leb inum n then get_at inum_of n l else none))
      × Increasing inum_of (ilist_truncate_prefix inum l rcache).0
unfolding ilist_truncate_prefix get_at
get_at-truncate inum n [] rcache s = (ground arith, tt)
get_at-truncate inum n (x ∷ l) rcache s =
    let rest = get_at-truncate inum n l (drop_request x rcache) s.1 in
    (
      elim (Option-cases (get_at inum_of n l)) [
        | inl e ↦ ground (arith, rest.0, e)
        | inr (y, e) ↦ ground (arith, rest.0, e, get_at-Over inum_of (inum_of x) n l y s.0 e)
      ],
      ground (arith, rest.1),
    )

-- The replies to a sync, one after another.
abbrev pub ack_all : List ℕ → Sync → Sync
ack_all [] sy = sy
ack_all (last ∷ l) sy = ack_all l (ack_last last sy)

acked_low :
    (b : ℕ) (l : List ℕ) (sy : Sync)
    → 0 < sy.ps_last
    → sy.ps_last ≤ b
    → All (λ x. 0 < x) l
    → (ack_all l sy).ps_last ≤ b
unfolding ack_last
acked_low b [] sy p h a = h
acked_low b (x ∷ l) sy p h a = acked_low b l (ack_last x sy) (ground arith) (ground arith) a.1

acked-All : (l : List ℕ) (sy : Sync) → All (λ x. 0 < x) l → All (λ x. (ack_all l sy).ps_last ≤ x) l
unfolding ack_last
acked-All [] sy a = tt
acked-All (x ∷ l) sy a = (
  acked_low x l (ack_last x sy) (ground (arith, a.0)) (ground (arith, a.0)) a.1,
  acked-All l (ack_last x sy) a.1,
)

-- The number below which the proposer truncates is, once it has the acceptors' last learned
-- numbers, each of them positive, at most its own last learned number and at most each of theirs.
pub sync_point-ack_all :
    (l : List ℕ) (pax : Session) (sy : Sync)
    → All (λ x. 0 < x) l
    → (sync_point pax (ack_all l sy) ≤ dec32 pax.ihole)
      × All (λ x. sync_point pax (ack_all l sy) ≤ x) l
unfolding sync_point
sync_point-ack_all l pax sy a =
    (ground arith, All-mono _ _ l (λ x h. ground arith) (acked-All l sy a))
