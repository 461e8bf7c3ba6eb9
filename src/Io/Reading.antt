-- ===== src/Io/Reading.antt =====
-- The read side of libmotmot/src/paxos_io.c, paxos_peer_read. msgpack's unpacker and the handling of a
-- message are parameters; what the channel gives is a list of reads.
use motmot.Base.{
  ℕ, zero, suc, Bool, true, false, not, ◌&&◌, List, [], ◌∷◌, ◌++◌, Option, none, some, ◌==◌, length,
  if◌then◌else◌,
}
use motmot.Io.{Status, normal, error, again, eof}

-- `g_io_channel_read_chars`: the bytes and the status; and whether there is input left afterwards.
pub record Read : Type 0 where
  pub bytes : List ℕ
  pub status : Status
  pub input : Bool

-- An unpacker's `next` on the bytes that it has buffered, a handler, the identifier of the current
-- session, and the handling of a lost connection.
module _ {M : Type 0} {S : Type 0} (next : List ℕ → Option (M × List ℕ)) (dispatch : M → S → ℕ × S)
    (self_id : S → ℕ) (lose : S → S) where
  -- `paxos_dispatch(...) != 0 && pax->self_id != 0`
  unfoldable pub fails : ℕ × S → Bool
  fails (r, s) = not (r == 0) && not (self_id s == 0)

  -- The loop over the objects. Its result: whether a dispatch failed, what is left, the new state.
  -- `none` is out of fuel.
  unfoldable pub pop_objects : ℕ → List ℕ → S → Option (Bool × (List ℕ × S))
  unfolding fails
  pop_objects zero buffer s = none
  pop_objects (suc fuel) buffer s = elim (next buffer) [
    | none ↦ some (false, (buffer, s))
    | some (m, rest) ↦ elim (fails (dispatch m s)) [
      | true ↦ some (true, (rest, (dispatch m s).1))
      | false ↦ pop_objects fuel rest (dispatch m s).1
    ]
  ]

  -- One round for each buffered byte, and one to see that there is no object.
  unfoldable pub pop_all : List ℕ → S → Option (Bool × (List ℕ × S))
  unfolding pop_objects
  pop_all buffer s = pop_objects (suc (length buffer)) buffer s

  -- The callback: its return value is TRUE unless a dispatch failed. `none`: the reads end while
  -- there is input.
  unfoldable pub paxos_peer_read : Bool → List Read → List ℕ → S → Option (Bool × (List ℕ × S))
  unfolding pop_all
  paxos_peer_read r [] buffer s = none
  paxos_peer_read r (x ∷ xs) buffer s = elim (pop_all (buffer ++ x.bytes) s) [
    | none ↦ none
    | some (failed, (rest, t)) ↦
        let later = paxos_peer_read (r && not failed) xs rest t in
        elim x.status [
          | eof ↦ some (false, (rest, lose t))
          | normal ↦ if x.input then later else some (r && not failed, (rest, t))
          | error ↦ if x.input then later else some (r && not failed, (rest, t))
          | again ↦ if x.input then later else some (r && not failed, (rest, t))
        ]
  ]
