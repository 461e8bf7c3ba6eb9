-- ===== src/Io/Framing.antt =====
-- The objects that paxos_peer_read of libmotmot/src/paxos_io.c handles, however the channel cuts them.
use mathlib.Core.List.{append_assoc}
use motmot.Base.{
  ℕ, zero, suc, ◌≡◌, refl, sym, subst, ◌∙◌, Bool-cases, not, ◌&&◌, ◌==◌, ◌⊎◌, inl, inr, Bool, true,
  false, List, [], ◌∷◌, ◌++◌, Option, none, some, ltb, length, arith,
}
use motmot.Io.{normal}
use motmot.Io.Reading.{Read, fails, pop_objects, pop_all, paxos_peer_read}

-- msgpack's unpacker: an object is read from the bytes at the front, and is the same if more bytes
-- follow; it takes at least one byte.
pub record Unpacker (M : Type 0) : Type 0 where
  pub next : List ℕ → Option (M × List ℕ)
  pub next_append :
      (b c r : List ℕ) (m : M) → next b ≡ some (m, r) → next (b ++ c) ≡ some (m, r ++ c)
  pub next_shorter :
      (b r : List ℕ) (m : M) → next b ≡ some (m, r) → ltb (length r) (length b) ≡ true

-- A handler of messages, such as paxos_dispatch, with the state that it acts on; and of a lost connection.
pub record Handler (M S : Type 0) : Type 0 where
  pub dispatch : M → S → ℕ × S
  pub self_id : S → ℕ
  pub lose : S → S

-- One read for each chunk.
abbrev pub reads_of : List ℕ → List (List ℕ) → List Read
reads_of c [] = record { bytes = c; status = normal; input = false } ∷ []
reads_of c (d ∷ cs) = record { bytes = c; status = normal; input = true } ∷ reads_of d cs

abbrev pub all_bytes : List ℕ → List (List ℕ) → List ℕ
all_bytes c [] = c
all_bytes c (d ∷ cs) = c ++ all_bytes d cs

module _ {M : Type 0} {S : Type 0} (u : Unpacker M) (h : Handler M S) where
  -- The bytes are these objects, and then the others.
  pub data Stream : List ℕ → List M → List ℕ → Type 0 where
    stops : (b : List ℕ) → Stream b [] b
    object :
        (b r e : List ℕ) (m : M) (ms : List M)
        → u.next b ≡ some (m, r)
        → Stream r ms e
        → Stream b (m ∷ ms) e

  abbrev pub handle_all : List M → S → S
  handle_all [] s = s
  handle_all (m ∷ ms) s = handle_all ms (h.dispatch m s).1

  -- No dispatch fails in a session.
  abbrev pub passes : List M → S → Bool
  passes [] s = true
  passes (m ∷ ms) s =
      not (not ((h.dispatch m s).0 == 0) && not (h.self_id (h.dispatch m s).1 == 0))
      && passes ms (h.dispatch m s).1

  handle_all-append :
      (ms ns : List M) (s : S) → handle_all (ms ++ ns) s ≡ handle_all ns (handle_all ms s)
  handle_all-append [] ns s = refl
  handle_all-append (m ∷ ms) ns s = handle_all-append ms ns (h.dispatch m s).1

  passes-append :
      (ms ns : List M) (r : Bool) (s : S)
      → (r && passes ms s) && passes ns (handle_all ms s) ≡ r && passes (ms ++ ns) s
  passes-append [] ns true s = refl
  passes-append [] ns false s = refl
  passes-append (m ∷ ms) ns false s = refl
  passes-append (m ∷ ms) ns true s =
      passes-append ms ns
        (not (not ((h.dispatch m s).0 == 0) && not (h.self_id (h.dispatch m s).1 == 0)))
        (h.dispatch m s).1

  Stream-append :
      (b r c e : List ℕ) (ms ns : List M)
      → Stream b ms r
      → Stream (r ++ c) ns e
      → Stream (b ++ c) (ms ++ ns) e
  Stream-append _ _ c e _ ns (stops b) t = t
  Stream-append _ r c e _ ns (object b q _ m ks n p) t =
      object (b ++ c) (q ++ c) e m (ks ++ ns) (u.next_append b c q m n)
        (Stream-append q r c e ks ns p t)

  next-cases : (o : Option (M × List ℕ)) → (o ≡ none) ⊎ ((m : M) × (r : List ℕ) × (o ≡ some (m, r)))
  next-cases none = inl refl
  next-cases (some (m, r)) = inr (m, r, refl)

  abbrev pop : ℕ → List ℕ → S → Option (Bool × (List ℕ × S))
  pop f b s = pop_objects u.next h.dispatch h.self_id h.lose f b s

  pop-none : (f : ℕ) (b : List ℕ) (s : S) → u.next b ≡ none → pop (suc f) b s ≡ some (false, (b, s))
  unfolding pop_objects
  pop-none f b s n = rw (pop_objects, n) refl

  abbrev failed : M → S → Bool
  failed m s = not ((h.dispatch m s).0 == 0) && not (h.self_id (h.dispatch m s).1 == 0)

  pop-fails :
      (f : ℕ) (b r : List ℕ) (m : M) (s : S)
      → u.next b ≡ some (m, r)
      → failed m s ≡ true
      → pop (suc f) b s ≡ some (true, (r, (h.dispatch m s).1))
  unfolding pop_objects fails
  pop-fails f b r m s n c = rw (pop_objects, n, fails, c) refl

  pop-some :
      (f : ℕ) (b r : List ℕ) (m : M) (s : S)
      → u.next b ≡ some (m, r)
      → failed m s ≡ false
      → pop (suc f) b s ≡ pop f r (h.dispatch m s).1
  unfolding pop_objects fails
  pop-some f b r m s n c = rw (pop_objects, n, fails, c) refl

  -- A loop over the objects that ends with this result.
  record Popped (b : List ℕ) (s : S) (o : Option (Bool × (List ℕ × S))) : Type 0 where
    ms : List M
    e : List ℕ
    stream : Stream b ms e
    result : o ≡ some (not (passes ms s), (e, handle_all ms s))
    left : (passes ms s ≡ false) ⊎ (u.next e ≡ none)

  pop_objects-Popped :
      (f : ℕ) (b : List ℕ) (s : S) → ltb (length b) f ≡ true → Popped b s (pop f b s)
  pop_objects-Popped zero b s l = ground arith
  pop_objects-Popped (suc f) b s l = elim (next-cases (u.next b)) [
    | inl n ↦ record { ms = []; e = b; stream = stops b; result = pop-none f b s n; left = inr n }
    | inr (m, r, n) ↦ (elim (Bool-cases (failed m s)) [
      | inl c ↦ record {
        ms = m ∷ [];
        e = r;
        stream = object b r r m [] n (stops r);
        result = rw c (pop-fails f b r m s n c);
        left = inl (rw c refl);
      }
      | inr c ↦
          let k = u.next_shorter b r m n in
          let p = pop_objects-Popped f r (h.dispatch m s).1 (ground arith) in
          record {
            ms = m ∷ p.ms;
            e = p.e;
            stream = object b r p.e m p.ms n p.stream;
            result = rw c (pop-some f b r m s n c ∙ p.result);
            left = rw c p.left;
          }
    ])
  ]

  abbrev reading : Bool → List Read → List ℕ → S → Option (Bool × (List ℕ × S))
  reading r xs b s = paxos_peer_read u.next h.dispatch h.self_id h.lose r xs b s

  pop_all-Popped :
      (b : List ℕ) (s : S) → Popped b s (pop_all u.next h.dispatch h.self_id h.lose b s)
  unfolding pop_all
  pop_all-Popped b s = pop_objects-Popped (suc (length b)) b s (ground arith)

  twice : (r p : Bool) → r && not (not p) ≡ r && p
  twice true true = refl
  twice true false = refl
  twice false p = refl

  left_later : {A : Type 0} (p q : Bool) {a : Bool} → p && q ≡ a → (q ≡ false) ⊎ A → (a ≡ false) ⊎ A
  left_later p true e (inl f) = ground arith
  left_later true false e (inl f) = inl (sym e)
  left_later false false e (inl f) = inl (sym e)
  left_later p q e (inr x) = inr x

  -- Every read but the last leaves input behind, and none finds the end. Whatever the handler does,
  -- the callback ends, and it has handled, in order, objects that the bytes begin with that were
  -- buffered and that the reads gave, wherever the reads cut them; what follows them is what is left in
  -- the buffer. It returns TRUE, if it was so far to do so, exactly if none of the dispatches has failed;
  -- and then what is left in the buffer is not yet an object.
  pub peer_read-Stream :
      (c : List ℕ) (cs : List (List ℕ)) (b : List ℕ) (r : Bool) (s : S)
      → (ms : List M) × (e : List ℕ) × Stream (b ++ all_bytes c cs) ms e
        × (reading r (reads_of c cs) b s ≡ some (r && passes ms s, (e, handle_all ms s)))
        × ((passes ms s ≡ false) ⊎ (u.next e ≡ none))
  unfolding paxos_peer_read
  peer_read-Stream c [] b r s =
      let p = pop_all-Popped (b ++ c) s in
      (p.ms, p.e, p.stream, rw (paxos_peer_read, p.result, twice r (passes p.ms s)) refl, p.left)
  peer_read-Stream c (d ∷ cs) b r s =
      let p = pop_all-Popped (b ++ c) s in
      let (ns, e, v, q, k) = peer_read-Stream d cs p.e (r && passes p.ms s) (handle_all p.ms s) in
      (
        p.ms ++ ns,
        e,
        subst (λ z. Stream z (p.ms ++ ns) e) (append_assoc b c (all_bytes d cs))
            (Stream-append (b ++ c) p.e (all_bytes d cs) e p.ms ns p.stream v),
        rw
            (
              paxos_peer_read,
              p.result,
              twice r (passes p.ms s),
              handle_all-append p.ms ns s,
              ← passes-append p.ms ns r s,
            )
            q,
        left_later (passes p.ms s) (passes ns (handle_all p.ms s)) (passes-append p.ms ns true s) k,
      )
