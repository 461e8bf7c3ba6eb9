-- ===== src/Client.antt =====
-- The example client, libmotmot/src/main.c. Its sockets, GLib's main loop and libmotmot are the
-- outside: what the code asks of them is a list of actions.
use motmot.Base.{
  ℕ, zero, suc, drop, Bool, true, false, List, [], ◌∷◌, ◌++◌, Option, none, some, ◌==◌, ◌&&◌, ◌||◌,
  ltb, length, if◌then◌else◌,
}
use motmot.Base.Text.{Chars, codes}
pub mod Commands

-- `print` writes a line.
pub data Action : Type 0 where
  listen start_session invite send print : Chars → Action
  watch_listener watch_input init run : Action
  disconnect : Action

-- `session` is not NULL when the Boolean is true.
pub record Client : Type 0 where
  pub session : Bool
  pub actions : List Action

-- How a callback ends. `aborted` is g_error, which is always fatal, and `undefined` a read beyond
-- the line that was read.
pub data Effect : Type 0 where
  returned : ℕ → Client → Effect
  exited : ℕ → Client → Effect
  aborted undefined : Effect

abbrev pub act : Action → Client → Client
act a c = record c { actions = c.actions ++ a ∷ [] }

-- A C string: the bytes up to the first NUL.
unfoldable pub c_string : List ℕ → Chars
c_string [] = []
c_string (b ∷ bs) = let rest = c_string bs in if b == 0 then [] else b ∷ rest

-- g_str_has_prefix
unfoldable pub str_has_prefix : List ℕ → Chars → Bool
str_has_prefix s [] = true
str_has_prefix [] (p ∷ ps) = false
str_has_prefix (b ∷ s) (p ∷ ps) = (b == p) && str_has_prefix s ps

-- `while (*++tmp == ' ');`
unfoldable pub skip_spaces : List ℕ → List ℕ
skip_spaces [] = []
skip_spaces (b ∷ s) = let rest = skip_spaces s in if b == 32 then rest else b ∷ s

unfoldable pub byte_at : ℕ → List ℕ → Option ℕ
byte_at n [] = none
byte_at zero (b ∷ s) = some b
byte_at (suc n) (b ∷ s) = byte_at n s

-- What paxos_end calls at the end of motmot_disconnect; it does not return.
unfoldable pub leave : Client → Effect
leave c =
    exited 0 (record (act (print (codes "PART succeeded.  Exiting...")) c) { session = false })

-- `msg[6] == '\0' || msg[6] == ' '` after "/part"
unfoldable pub part_command : List ℕ → Client → Effect
unfolding byte_at leave
part_command msg c = elim (byte_at 6 msg) [
  | none ↦ undefined
  | some b ↦ if (b == 0) || (b == 32) then leave (act disconnect c) else returned 1 c
]

-- The line's bytes, and those that follow the byte at `eol`, which becomes a NUL. `none` is a read
-- that failed.
unfoldable pub input_loop : Option (List ℕ × List ℕ) → Client → Effect
unfolding c_string str_has_prefix skip_spaces part_command
input_loop none c = aborted
input_loop (some (line, rest)) c =
    let msg = line ++ 0 ∷ rest in
    if c.session
    then if str_has_prefix msg (codes "/invite ")
      then returned 1 (act (invite (c_string (skip_spaces (drop 8 msg)))) c)
      else if str_has_prefix msg (codes "/part")
      then part_command msg c
      else returned 1 (act (send (line ++ 0 ∷ [])) c)
    else returned 1 (act (print (codes "input_loop: No session initiated; request ignored.")) c)

-- `%.*s`: at most so many bytes, up to a NUL.
unfoldable pub print_at_most : ℕ → List ℕ → Chars
print_at_most zero s = []
print_at_most (suc n) [] = []
print_at_most (suc n) (b ∷ s) = let rest = print_at_most n s in if b == 0 then [] else b ∷ rest

unfoldable pub print_chat : List ℕ → ℕ → List ℕ → ℕ → Client → Client
unfolding print_at_most
print_chat buf len desc size c =
    act
      (print (codes "CHAT(" ++ (print_at_most size desc ++ (codes "): " ++ print_at_most len buf))))
      c

unfoldable pub print_join : List ℕ → ℕ → Client → Client
unfolding print_at_most
print_join desc size c = act (print (codes "JOIN: " ++ print_at_most size desc)) c

unfoldable pub print_part : List ℕ → ℕ → Client → Client
unfolding print_at_most
print_part desc size c = act (print (codes "PART: " ++ print_at_most size desc)) c

-- The session that libmotmot made, or NULL.
unfoldable pub enter : Bool → Client → Client
enter made c = record (act (print (codes "Welcome to your Motmot session!")) c) { session = made }

unfoldable pub invite_all : List Chars → Client → Client
invite_all [] c = c
invite_all (friend ∷ friends) c = invite_all friends (act (invite friend) c)

-- The session that motmot_session returns is a parameter.
unfoldable pub main : Bool → List Chars → Client → Effect
unfolding invite_all
main made (program ∷ self ∷ friends) c =
    let ready = act init (act watch_input (act watch_listener (act (listen self) c))) in
    elim friends [
      | [] ↦ returned 0 (act run ready)
      | f ∷ fs ↦ returned 0 (
          act run
            (invite_all (f ∷ fs) (record (act (start_session self) ready) { session = made })))
    ]
main made _ c = exited 1 (act (print (codes "Usage: motmot my/sock [other/socks...]")) c)
