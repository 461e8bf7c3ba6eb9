-- ===== src/Client/Commands.antt =====
-- What a line of input does (libmotmot/src/main.c).
use motmot.Base.{
  ℕ, ◌≡◌, ◌≢◌, ◌∙◌, refl, Bool, true, false, not, ◌&&◌, Bool-cases, inl, inr, List, [], ◌∷◌, ◌++◌,
  All, some, ◌==◌, if◌then◌else◌, arith,
}
use motmot.Base.Text.{Chars, codes}
use motmot.Client.{
  Action, Client, Effect, returned, exited, act, invite, send, disconnect, print, leave, c_string,
  str_has_prefix, skip_spaces, byte_at, part_command, input_loop,
}

-- Without the spaces at its start.
abbrev pub trim : Chars → Chars
trim [] = []
trim (c ∷ s) = let rest = trim s in if c == 32 then rest else c ∷ s

-- Whether "/part" followed by this leaves the session: only the second byte is looked at.
abbrev pub leaves : Chars → Bool
leaves [] = true
leaves (c ∷ []) = true
leaves (c ∷ d ∷ s) = d == 32

-- The client has said so, has no session, and has exited.
abbrev pub left : Client → Effect
left c = exited 0 (record {
  session = false;
  actions = c.actions ++ print (codes "PART succeeded.  Exiting...") ∷ [];
})

-- A line that ends in a newline, as GLib gives it: a NUL is at the place of the newline, and one
-- after it.
abbrev pub line_read : Chars → Client → Effect
line_read line c = input_loop (some (line, 0 ∷ [])) c

-- For the texts of the source.
abbrev pub has_no_nul : Chars → Bool
has_no_nul [] = true
has_no_nul (c ∷ s) = not (c == 0) && has_no_nul s

pub All-has_no_nul : (s : Chars) → has_no_nul s ≡ true → All (λ b. b ≢ 0) s
All-has_no_nul [] h = tt
All-has_no_nul (c ∷ s) h = (ground arith, All-has_no_nul s (ground arith))

c_string-line : (s t : List ℕ) → All (λ b. b ≢ 0) s → c_string (s ++ 0 ∷ t) ≡ s
unfolding c_string
c_string-line [] t h = refl
c_string-line (b ∷ s) t (n, h) = ground (arith, c_string-line s t h)

c_string-trim : (s : Chars) → All (λ b. b ≢ 0) s → c_string (skip_spaces (s ++ 0 ∷ 0 ∷ [])) ≡ trim s
unfolding skip_spaces c_string
c_string-trim [] h = refl
c_string-trim (b ∷ s) (n, h) = elim (Bool-cases (b == 32)) [
  | inl e ↦ rw e (c_string-trim s h)
  | inr e ↦ rw e (c_string-line (b ∷ s) (0 ∷ []) (n, h))
]

part_command-leaves :
    (s : Chars) (c : Client)
    → All (λ b. b ≢ 0) s
    → part_command (codes "/part" ++ (s ++ 0 ∷ 0 ∷ [])) c
      ≡ (if leaves s then left (act disconnect c) else returned 1 c)
unfolding part_command leave byte_at
part_command-leaves [] c h = refl
part_command-leaves (b ∷ []) c h = refl
part_command-leaves (b ∷ d ∷ s) c (n, (m, h)) = ground arith

has_prefix-line :
    (p s t : List ℕ) → All (λ b. b ≢ 0) p → str_has_prefix (s ++ 0 ∷ t) p ≡ str_has_prefix s p
unfolding str_has_prefix
has_prefix-line [] s t h = ground arith
has_prefix-line (b ∷ p) [] t (n, h) = ground arith
has_prefix-line (b ∷ p) (c ∷ s) t (n, h) = ground (arith, has_prefix-line p s t h)

abbrev pub in_session : List Action → Client
in_session actions = record { session = true; actions = actions }

-- In a session: "/invite " invites what follows its spaces; "/part" disconnects, and the client says that it has parted and exits,
-- when `leaves` holds of what follows it, and otherwise does nothing, where what follows has no NUL; and a line that
-- starts with neither is sent, with a NUL after it.
pub input_loop-commands :
    (actions : List Action) (s line : Chars)
    → All (λ b. b ≢ 0) s
    → str_has_prefix line (codes "/invite ") ≡ false
    → str_has_prefix line (codes "/part") ≡ false
    → (line_read (codes "/invite " ++ s) (in_session actions)
        ≡ returned 1 (act (invite (trim s)) (in_session actions)))
      × (line_read (codes "/part" ++ s) (in_session actions) ≡ (
          if leaves s
          then left (act disconnect (in_session actions))
          else returned 1 (in_session actions)))
      × (line_read line (in_session actions)
          ≡ returned 1 (act (send (line ++ 0 ∷ [])) (in_session actions)))
unfolding input_loop str_has_prefix
input_loop-commands actions s line n i p =
    let not_invite =
      has_prefix-line (codes "/invite ") line (0 ∷ []) (All-has_no_nul (codes "/invite ") refl)
      ∙ i in
    let not_part =
      has_prefix-line (codes "/part") line (0 ∷ []) (All-has_no_nul (codes "/part") refl) ∙ p in
    (
      rw (c_string-trim s n) refl,
      part_command-leaves s (in_session actions) n,
      rw (not_invite, not_part) refl,
    )
