-- ===== src/Io/Fifo.antt =====
-- A peer's write buffer as a queue of bytes (libmotmot/src/paxos_io.c).
use mathlib.Core.List.{append_assoc, append-nil}
use motmot.Base.{
  subst, Bool, ℕ, ◌+◌, ◌≡◌, ◌≢◌, refl, sym, ap, ◌∙◌, List, [], ◌∷◌, ◌++◌, arith, true, false, ltb,
  length, take, drop, take-drop, if◌then◌else◌,
}
use motmot.Io.{
  Peer, is_empty, peer_send, Status, normal, error, again, eof, erase_written, await_input, Ending,
  keeps, removes, reads_and_removes, paxos_peer_write, remove_source, writable,
}

-- What happens to a peer: a send, or a run of its G_IO_OUT callback.
pub data IoEvent : Type 0 where
  sends : List ℕ → IoEvent
  writes : Status → ℕ → Bool → IoEvent

abbrev pub io_step : IoEvent → Peer → Peer
io_step (sends d) p = peer_send d p
io_step (writes s n i) p = writable s n i p

abbrev pub io_run : List IoEvent → Peer → Peer
io_run [] p = p
io_run (e ∷ l) p = io_run l (io_step e p)

-- The bytes that have been sent.
abbrev pub sent : List IoEvent → List ℕ
sent [] = []
sent (sends d ∷ l) = d ++ sent l
sent (writes s n i ∷ l) = sent l

-- The bytes of a peer: those the channel has taken, and those in the buffer.
abbrev pub bytes : Peer → List ℕ
bytes p = p.channel ++ p.write_buffer

bytes-send : (d : List ℕ) (p : Peer) → bytes (peer_send d p) ≡ bytes p ++ d
unfolding peer_send
bytes-send d p = sym (append_assoc p.channel p.write_buffer d)

bytes-erase : (n : ℕ) (p : Peer) → bytes (erase_written n p) ≡ bytes p
unfolding erase_written
bytes-erase n p =
    append_assoc p.channel (take n p.write_buffer) (drop n p.write_buffer)
    ∙ ap (λ l. p.channel ++ l) (take-drop n p.write_buffer)

bytes-await : (p : Peer) → bytes (await_input p) ≡ bytes p
unfolding await_input
bytes-await p = ground arith

bytes-remove : (e : Ending) (p : Peer) → bytes (remove_source e p) ≡ bytes p
unfolding remove_source
bytes-remove keeps p = refl
bytes-remove removes p = refl
bytes-remove reads_and_removes p = refl

-- What both branches of a test have.
if-both {ℓ ℓ'} :
    {A : Type ℓ} (P : A → Type ℓ') (b : Bool) (x y : A)
    → P x
    → (b ≡ false → P y)
    → P (if b then x else y)
if-both P true x y p q = p
if-both P false x y p q = q refl

-- How the callback ends, by cases: it returns TRUE unless it has found the channel's end.
write-cases :
    (P : Ending × Peer → Type 0) (s : Status) (n : ℕ) (i : Bool) (p : Peer)
    → P (keeps, p)
    → ((e : Ending)
        → (s ≢ eof → e ≡ keeps)
        → is_empty p.write_buffer ≡ false
        → P (e, await_input (erase_written n p)))
    → P (paxos_peer_write s n i p)
unfolding paxos_peer_write
write-cases P normal n i p a b = if-both P (is_empty p.write_buffer) _ _ a (b keeps (λ h. refl))
write-cases P error n i p a b = if-both P (is_empty p.write_buffer) _ _ a (b keeps (λ h. refl))
write-cases P again n i p a b = if-both P (is_empty p.write_buffer) _ _ a (b keeps (λ h. refl))
write-cases P eof n i p a b =
    if-both P (is_empty p.write_buffer) _ _ a
      (b (if i then reads_and_removes else removes) (λ h. absurd (h refl)))

bytes-peer_write :
    (s : Status) (n : ℕ) (i : Bool) (p : Peer) → bytes (paxos_peer_write s n i p).1 ≡ bytes p
bytes-peer_write s n i p =
    write-cases (λ r. bytes r.1 ≡ bytes p) s n i p refl
      (λ e k f. bytes-await (erase_written n p) ∙ bytes-erase n p)

bytes-writable : (s : Status) (n : ℕ) (i : Bool) (p : Peer) → bytes (writable s n i p) ≡ bytes p
unfolding writable
bytes-writable s n i p =
    bytes-remove (paxos_peer_write s n i p).0 (paxos_peer_write s n i p).1
    ∙ bytes-peer_write s n i p

-- Whatever is sent to a peer, and however little each write takes: what the channel has taken,
-- followed by what the buffer holds, is what it was at first, followed by what has been sent, in
-- order.
pub bytes-io_run : (l : List IoEvent) (p : Peer) → bytes (io_run l p) ≡ bytes p ++ sent l
bytes-io_run [] p = sym (append-nil (bytes p))
bytes-io_run (sends d ∷ l) p =
    bytes-io_run l (peer_send d p)
    ∙ ap (λ x. x ++ sent l) (bytes-send d p)
    ∙ append_assoc (bytes p) d (sent l)
bytes-io_run (writes s n i ∷ l) p =
    bytes-io_run l (writable s n i p) ∙ ap (λ x. x ++ sent l) (bytes-writable s n i p)

-- No write has found the channel's end.
abbrev pub Open : List IoEvent → Type 0
Open [] = Unit
Open (sends d ∷ l) = Open l
Open (writes s n i ∷ l) = (s ≢ eof) × Open l

-- One source waits for input, and one for output just while the buffer holds something.
abbrev pub Watched : Peer → Type 0
Watched p = (p.in_watches ≡ 1) × (p.out_watches ≡ (if is_empty p.write_buffer then 0 else 1))

-- A send's source, by what the buffer held and by what is sent.
out-send :
    (a d : List ℕ) (k : ℕ)
    → k ≡ (if is_empty a then 0 else 1)
    → (if is_empty a then (if ltb 0 (length d) then k + 1 else k) else k)
      ≡ (if is_empty (a ++ d) then 0 else 1)
out-send [] [] k e = e
out-send [] (x ∷ d) k e = ground arith
out-send (y ∷ a) d k e = e

Watched-send : (d : List ℕ) (p : Peer) → Watched p → Watched (peer_send d p)
unfolding peer_send
Watched-send d p (i, o) = (i, out-send p.write_buffer d p.out_watches o)

unwatched : (b : List ℕ) (k : ℕ) → k ≡ (if is_empty b then 0 else 1) → is_empty b ≡ false → k ≡ 1
unwatched b k o e = o ∙ ap (λ x. if x then 0 else 1) e

-- The callback runs while the buffer holds something, which a source then waits to write.
Watched-rest :
    (b : List ℕ) (p : Peer)
    → p.in_watches ≡ 1
    → p.out_watches ≡ 1
    → Watched (await_input (record p { write_buffer = b }))
unfolding await_input
Watched-rest [] p i o = (refl, refl)
Watched-rest (x ∷ b) p i o = (i, o)

Watched-await :
    (n : ℕ) (p : Peer)
    → Watched p
    → is_empty p.write_buffer ≡ false
    → Watched (await_input (erase_written n p))
unfolding erase_written
Watched-await n p (i, o) e =
    Watched-rest (drop n p.write_buffer) (record p { channel = p.channel ++ take n p.write_buffer })
      i (unwatched p.write_buffer p.out_watches o e)

Watched-writable :
    (s : Status) (n : ℕ) (i : Bool) (p : Peer) → s ≢ eof → Watched p → Watched (writable s n i p)
unfolding writable remove_source
Watched-writable s n i p a w =
    write-cases (λ r. Watched (remove_source r.0 r.1)) s n i p w
      (λ e k f.
        subst (λ x. Watched (remove_source x (await_input (erase_written n p)))) (sym (k a))
          (Watched-await n p w f))

-- While no write finds the channel's end, a peer has one source that waits for input, and one that
-- waits to write exactly while its buffer holds something: no data is left waiting for no one.
pub io_run-Watched : (l : List IoEvent) (p : Peer) → Open l → Watched p → Watched (io_run l p)
io_run-Watched [] p a w = w
io_run-Watched (sends d ∷ l) p a w = io_run-Watched l (peer_send d p) a (Watched-send d p w)
io_run-Watched (writes s n i ∷ l) p (a, rest) w =
    io_run-Watched l (writable s n i p) rest (Watched-writable s n i p a w)
