-- ===== src/Acceptor/Promises.antt =====
-- What a promise carries (acceptor_promise of libmotmot/src/paxos_acceptor.c).
use motmot.Base.{
  ℕ, ◌+◌, ◌≤◌, ◌<◌, ◌≡◌, leb, Option, none, some, List, [], ◌∷◌, ◌++◌, length, All, if◌then◌else◌,
}
use motmot.Session.{Instance}
use motmot.SessionLocal.{inum_of, get_at}
use motmot.Codec.{paxos_instance_pack}
use motmot.Msgpack.{Tok}
use motmot.Acceptor.{promise_scan}

-- All instances from a number on are among the nodes.
abbrev pub From : ℕ → List Instance → List Instance → Type 0
From inum l nodes =
    (n : ℕ) (i : Instance)
    → inum ≤ n
    → get_at inum_of n l ≡ some i
    → get_at inum_of n nodes ≡ some i

-- What the loop counts and where it breaks: at a node whose number is at most the one asked for.
record Breaks (inum : ℕ) (l nodes : List Instance) : Type 0 where
  scan : promise_scan inum l ≡ (length nodes, some nodes)
  first : Instance
  after : List Instance
  front : nodes ≡ first ∷ after
  low : inum_of first ≤ inum
  found : get_at inum_of (inum_of first) l ≡ some first
  kept : From inum l nodes

-- Or it runs off the front.
record RunsOff (inum : ℕ) (l : List Instance) : Type 0 where
  scan : promise_scan inum l ≡ (length l, none)
  above : All (λ i. inum < inum_of i) l

-- A round of the loop, on what the later nodes have given.
abbrev scan_step :
    ℕ → Instance → List Instance → ℕ × Option (List Instance) → ℕ × Option (List Instance)
scan_step inum x l p = elim p.1 [
  | some nodes ↦ (p.0, some nodes)
  | none ↦ (p.0 + 1, if leb (inum_of x) inum then some (x ∷ l) else none)
]

-- The msgpack forms of instances, one after the other.
abbrev pub packed : List Instance → List Tok
packed [] = []
packed (i ∷ l) = paxos_instance_pack i ++ packed l
