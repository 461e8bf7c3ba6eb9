-- ===== src/Examples/Chunks.antt =====
-- Objects of two bytes, read in chunks that cut one of them.
use motmot.Base.{
  ℕ, ◌+◌, ◌==◌, ◌⊎◌, if◌then◌else◌, ◌≡◌, refl, ap, false, subst, true, List, [], ◌∷◌, ◌++◌, Option,
  none, some, ltb, length, arith,
}
use motmot.Io.Reading.{paxos_peer_read}
use motmot.Io.Framing.{
  Unpacker, Handler, Stream, handle_all, passes, all_bytes, reads_of, peer_read-Stream,
}

abbrev two_bytes : List ℕ → Option (ℕ × List ℕ)
two_bytes [] = none
two_bytes (x ∷ []) = none
two_bytes (x ∷ y ∷ r) = some (x + y, r)

abbrev followed : List ℕ → Option (ℕ × List ℕ) → Option (ℕ × List ℕ)
followed c none = none
followed c (some (m, r)) = some (m, r ++ c)

abbrev rest_of : Option (ℕ × List ℕ) → List ℕ
rest_of none = []
rest_of (some (m, r)) = r

two_bytes-append :
    (b c r : List ℕ) (m : ℕ) → two_bytes b ≡ some (m, r) → two_bytes (b ++ c) ≡ some (m, r ++ c)
two_bytes-append [] c r m e = ground arith
two_bytes-append (x ∷ []) c r m e = ground arith
two_bytes-append (x ∷ y ∷ t) c r m e = ap (followed c) e

two_bytes-shorter :
    (b r : List ℕ) (m : ℕ) → two_bytes b ≡ some (m, r) → ltb (length r) (length b) ≡ true
two_bytes-shorter [] r m e = ground arith
two_bytes-shorter (x ∷ []) r m e = ground arith
two_bytes-shorter (x ∷ y ∷ t) r m e =
    subst (λ z. ltb (length z) (length (x ∷ y ∷ t)) ≡ true) (ap rest_of e) (ground arith)

abbrev pairs : Unpacker ℕ
pairs = record {
  next = two_bytes;
  next_append = two_bytes-append;
  next_shorter = two_bytes-shorter;
}

-- The handler keeps the messages, and fails on 3, in a session.
abbrev keeper : Handler ℕ (List ℕ)
keeper = record {
  dispatch = λ m s. (if m == 3 then 1 else 0, s ++ m ∷ []);
  self_id = λ s. 1;
  lose = λ s. s;
}

abbrev later_chunks : List (List ℕ)
later_chunks = (3 ∷ 4 ∷ 5 ∷ []) ∷ []

peer_read-Stream_example :
    (ms : List ℕ) × (e : List ℕ) × Stream pairs keeper
      ((1 ∷ []) ++ all_bytes (2 ∷ 7 ∷ []) later_chunks)
      ms
      e
    × (paxos_peer_read two_bytes keeper.dispatch keeper.self_id keeper.lose true
          (reads_of (2 ∷ 7 ∷ []) later_chunks)
          (1 ∷ [])
          []
        ≡ some (passes pairs keeper ms [], (e, handle_all pairs keeper ms [])))
    × ((passes pairs keeper ms [] ≡ false) ⊎ (two_bytes e ≡ none))
peer_read-Stream_example = peer_read-Stream pairs keeper (2 ∷ 7 ∷ []) later_chunks (1 ∷ []) true []

-- The first object fails, the callback returns FALSE, and the rest of the bytes has been handled later.
all_handled :
    paxos_peer_read two_bytes keeper.dispatch keeper.self_id keeper.lose true
      (reads_of (2 ∷ 7 ∷ []) later_chunks)
      (1 ∷ [])
      []
    ≡ some (false, ([], 3 ∷ 10 ∷ 9 ∷ []))
unfolding paxos_peer_read motmot.Io.Reading.pop_all motmot.Io.Reading.pop_objects
    motmot.Io.Reading.fails
all_handled = refl
