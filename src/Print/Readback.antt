-- ===== src/Print/Readback.antt =====
-- What paxos_header_print of libmotmot/src/paxos_print.c prints can be read again.
use motmot.Base.{
  ℕ, zero, suc, ◌+◌, ◌-◌, ◌*◌, ◌/◌, ◌%◌, ◌≡◌, refl, ap, ◌∙◌, Bool, true, false, Bool-cases, inl,
  inr, List, [], ◌∷◌, ◌++◌, Option, none, some, ltb, leb, ◌&&◌, take, drop, if◌then◌else◌, arith,
}
use motmot.Base.Text.{Chars, codes, equal}
use motmot.Core.{
  Paxop, op_prepare, op_promise, op_decree, op_accept, op_commit, op_welcome, op_hello, op_request,
  op_retrieve, op_resend, op_redirect, op_refuse, op_reject, op_retry, op_recommit, op_sync,
  op_last, op_truncate, op_other, Header,
}
use motmot.Codec.{paxops}
use motmot.Print.{
  decimal_from, decimal, paxid_print, ppair_print, op_text, paxop_print, paxos_header_print,
}

abbrev pub find_op : List Paxop → Chars → Option Paxop
find_op [] s = none
find_op (op ∷ ops) s = let rest = find_op ops s in if equal (op_text op) s then some op else rest

-- A decimal number at the front, and what follows it.
abbrev pub read_number : ℕ → Chars → ℕ × Chars
read_number n [] = (n, [])
read_number n (c ∷ s) =
    let more = read_number (n * 10 + (c - 48)) s in
    if leb 48 c && ltb c 58 then more else (n, c ∷ s)

abbrev pub is_known : Paxop → Bool
is_known (op_other n) = false
is_known _ = true

read_number-digit :
    (a d : ℕ) (t : Chars)
    → ltb d 10 ≡ true
    → read_number a ((48 + d) ∷ t) ≡ read_number (a * 10 + d) t
read_number-digit a d t h =
    let digit : (leb 48 (48 + d) && ltb (48 + d) 58) ≡ true = ground arith in
    let same : a * 10 + (48 + d - 48) ≡ a * 10 + d = omega arith in rw (digit, same) refl

decimal_from-last :
    (f n : ℕ) (t : Chars) → ltb n 10 ≡ true → decimal_from (suc f) n t ≡ (48 + n) ∷ t
unfolding decimal_from
decimal_from-last f n t e = rw (decimal_from, e) refl

decimal_from-more :
    (f n : ℕ) (t : Chars)
    → ltb n 10 ≡ false
    → decimal_from (suc f) n t ≡ decimal_from f (n / 10) ((48 + n % 10) ∷ t)
unfolding decimal_from
decimal_from-more f n t e = rw (decimal_from, e) refl

read_number-decimal_from :
    (f n : ℕ) (t : Chars) → ltb n f ≡ true → read_number 0 (decimal_from f n t) ≡ read_number n t
read_number-decimal_from zero n t h = ground arith
read_number-decimal_from (suc f) n t h = elim (Bool-cases (ltb n 10)) [
  | inl e ↦
      let same : 0 * 10 + n ≡ n = omega arith in
      rw (decimal_from-last f n t e) (read_number-digit 0 n t e ∙ ap (λ k. read_number k t) same)
  | inr e ↦
      let fewer : ltb (n / 10) f ≡ true = ground arith in
      let digit : ltb (n % 10) 10 ≡ true = ground arith in
      let whole : (n / 10) * 10 + n % 10 ≡ n = omega arith in
      rw (decimal_from-more f n t e) (
        read_number-decimal_from f (n / 10) ((48 + n % 10) ∷ t) fewer
        ∙ (read_number-digit (n / 10) (n % 10) t digit ∙ ap (λ k. read_number k t) whole))
]

read_number-decimal : (n : ℕ) (t : Chars) → read_number 0 (decimal n t) ≡ read_number n t
unfolding decimal
read_number-decimal n t = read_number-decimal_from (suc n) n t (ground arith)

-- What an opcode's text is, within eleven characters.
find_op-op_text :
    (op : Paxop) (t : Chars)
    → is_known op ≡ true
    → (find_op paxops (take 11 (op_text op ++ t)) ≡ some op) × (drop 11 (op_text op ++ t) ≡ t)
unfolding op_text equal
find_op-op_text op_prepare t h = (refl, refl)
find_op-op_text op_promise t h = (refl, refl)
find_op-op_text op_decree t h = (refl, refl)
find_op-op_text op_accept t h = (refl, refl)
find_op-op_text op_commit t h = (refl, refl)
find_op-op_text op_welcome t h = (refl, refl)
find_op-op_text op_hello t h = (refl, refl)
find_op-op_text op_request t h = (refl, refl)
find_op-op_text op_retrieve t h = (refl, refl)
find_op-op_text op_resend t h = (refl, refl)
find_op-op_text op_redirect t h = (refl, refl)
find_op-op_text op_refuse t h = (refl, refl)
find_op-op_text op_reject t h = (refl, refl)
find_op-op_text op_retry t h = (refl, refl)
find_op-op_text op_recommit t h = (refl, refl)
find_op-op_text op_sync t h = (refl, refl)
find_op-op_text op_last t h = (refl, refl)
find_op-op_text op_truncate t h = (refl, refl)
find_op-op_text (op_other n) t h = ground arith

-- What is read of a header: its opcode, its ballot's two numbers, its instance number; and what
-- follows.
abbrev pub Line : Type 0
Line = Paxop × (ℕ × (ℕ × (ℕ × Chars)))

abbrev with_inum : Paxop → ℕ → ℕ → ℕ × Chars → Option Line
with_inum op id gen (inum, rest) = some (op, (id, (gen, (inum, rest))))

abbrev with_gen : Paxop → ℕ → ℕ × Chars → Option Line
with_gen op id (gen, rest) = with_inum op id gen (read_number 0 (drop 2 rest))

abbrev with_id : Paxop → ℕ × Chars → Option Line
with_id op (id, rest) = with_gen op id (read_number 0 (drop 2 rest))

abbrev with_op : Option Paxop → Chars → Option Line
with_op none rest = none
with_op (some op) rest = with_id op (read_number 0 (drop 2 rest))

abbrev pub read_header : Chars → Option Line
read_header s = with_op (find_op paxops (take 11 s)) (drop 11 s)

-- What is printed after the opcode.
abbrev numbers : ℕ → ℕ → ℕ → Chars → Chars
numbers id gen inum t =
    32 ∷ 40 ∷ decimal id (44 ∷ 32 ∷ decimal gen (41 ∷ 32 ∷ decimal inum (10 ∷ t)))

with_op-numbers :
    (op : Paxop) (id gen inum : ℕ) (t : Chars)
    → with_op (some op) (numbers id gen inum t) ≡ some (op, (id, (gen, (inum, 10 ∷ t))))
with_op-numbers op id gen inum t =
    let after_gen = 41 ∷ 32 ∷ decimal inum (10 ∷ t) in
    ap (with_id op) (read_number-decimal id (44 ∷ 32 ∷ decimal gen after_gen))
    ∙ (ap (with_gen op id) (read_number-decimal gen after_gen)
        ∙ ap (with_inum op id gen) (read_number-decimal inum (10 ∷ t)))

header_print-numbers :
    (hdr : Header) (after : Chars)
    → paxos_header_print hdr [] (codes "\n") after
      ≡ op_text hdr.ph_opcode ++ numbers hdr.ph_ballot.id hdr.ph_ballot.gen hdr.ph_inum after
unfolding paxos_header_print paxop_print ppair_print paxid_print
header_print-numbers hdr after = refl

-- The opcode, the ballot and the instance number of a header of the protocol can be read from the
-- line that is printed for it, whatever the line is followed by; the session's identifier is not
-- printed.
pub read_header-paxos_header_print :
    (hdr : Header) (after : Chars)
    → is_known hdr.ph_opcode ≡ true
    → read_header (paxos_header_print hdr [] (codes "\n") after)
      ≡ some (hdr.ph_opcode, (hdr.ph_ballot.id, (hdr.ph_ballot.gen, (hdr.ph_inum, 10 ∷ after))))
read_header-paxos_header_print hdr after h =
    let ns = numbers hdr.ph_ballot.id hdr.ph_ballot.gen hdr.ph_inum after in
    let (o, r) = find_op-op_text hdr.ph_opcode ns h in
    ap read_header (header_print-numbers hdr after)
    ∙ (ap (λ z. with_op z (drop 11 (op_text hdr.ph_opcode ++ ns))) o
        ∙ (ap (with_op (some hdr.ph_opcode)) r
            ∙ with_op-numbers hdr.ph_opcode hdr.ph_ballot.id hdr.ph_ballot.gen hdr.ph_inum after))
