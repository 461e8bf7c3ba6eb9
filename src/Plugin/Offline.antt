-- ===== src/Plugin/Offline.antt =====
-- Messages for accounts that are offline: purplemot_send_im and purplemot_login of
-- turquoise/purplemot.c. The GHashTable is a list of pairs.
use Prim.Native.Nat.{bit_and, bit_or}
use motmot.Base.{
  ℕ, ◌-◌, Bool, true, false, not, List, [], ◌∷◌, ◌++◌, Option, none, some, ◌==◌, ◌||◌, u32_mod,
  if◌then◌else◌,
}
use motmot.Base.Text.{Chars, equal, codes}
use motmot.Plugin.{
  Call, got_im, present_error, connection_error, set_display_name, update_progress, set_connected,
  ssl_connect, Purple, get_purplemot_gc,
}

-- GOfflineMessage
pub record OfflineMessage : Type 0 where
  pub from : Chars
  pub message : Chars
  pub mtime : ℕ
  pub flags : ℕ

-- A node of a GList: its data, or a pointer to data that has been freed.
pub data Node : Type 0 where
  live : OfflineMessage → Node
  freed : Node

abbrev pub Table : Type 0
Table = List (Chars × List Node)

-- g_hash_table_lookup, whose NULL is the empty list
unfoldable pub lookup : Chars → Table → List Node
lookup k [] = []
lookup k ((j, l) ∷ t) = if equal j k then l else lookup k t

-- g_hash_table_insert replaces the value of a key that is there.
unfoldable pub insert : Chars → List Node → Table → Table
insert k l [] = (k, l) ∷ []
insert k l ((j, m) ∷ t) = if equal j k then (j, l) ∷ t else (j, m) ∷ insert k l t

unfoldable pub remove : Chars → Table → Table
remove k [] = []
remove k ((j, l) ∷ t) = if equal j k then t else (j, l) ∷ remove k t

pub record Plugin : Type 0 where
  pub goffline_messages : Table
  pub calls : List Call

-- `undefined` is a read of freed data, or of an element that is not there.
pub data Outcome : Type 0 where
  returned : ℕ → Plugin → Outcome
  undefined : Outcome

abbrev pub call : Call → Plugin → Plugin
call c p = record p { calls = p.calls ++ c ∷ [] }

-- `(flags & ~PURPLE_MESSAGE_SEND) | PURPLE_MESSAGE_RECV`
unfoldable pub receive_flags : Purple → ℕ → ℕ
receive_flags env flags = bit_or (bit_and flags (u32_mod - 1 - env.flag_send)) env.flag_recv

-- A message is appended to the list of its recipient.
unfoldable pub store : Chars → OfflineMessage → Plugin → Plugin
unfolding insert lookup
store who m p = record p {
  goffline_messages =
      insert who (lookup who p.goffline_messages ++ live m ∷ []) p.goffline_messages;
}

-- `to_acct && !purple_privacy_check(to_acct, ...)`
unfoldable pub is_blocked : Purple → Chars → Chars → Bool
is_blocked env who username = elim (env.find_account who) [
  | none ↦ false
  | some acct ↦ not (env.privacy_check who username)
]

unfoldable pub purplemot_send_im : Purple → Chars → Chars → Chars → ℕ → Plugin → Outcome
unfolding is_blocked receive_flags store
purplemot_send_im env username who message flags p =
    if is_blocked env who username
    then returned 0 (
        call
          (present_error who
            (codes "Your message was blocked by " ++ (who ++ codes "'s privacy settings.")))
          p)
    else (elim (get_purplemot_gc env who) [
      | some to ↦ returned 1 (call (got_im to username message (receive_flags env flags) env.now) p)
      | none ↦ returned 1 (
          store who
            (record {
              from = username;
              message = message;
              mtime = env.now;
              flags = receive_flags env flags;
            })
            p)
    ])

-- `strpbrk(username, " \t\v\r\n") != NULL`
unfoldable pub has_space : Chars → Bool
has_space [] = false
has_space (c ∷ s) =
    (c == 32) || ((c == 9) || ((c == 11) || ((c == 13) || ((c == 10) || has_space s))))

-- `g_strsplit(username, "@", 2)`: what is before the first `@`, and what is after it.
unfoldable pub split_at : Chars → Chars × Option Chars
split_at [] = ([], none)
split_at (c ∷ s) =
    let (before, after) = split_at s in if c == 64 then ([], some s) else (c ∷ before, after)

-- The loop over the stored messages: each is read, delivered and freed.
unfoldable pub deliver : Chars → List Node → Option (List Call)
deliver username [] = some []
deliver username (freed ∷ l) = none
deliver username (live m ∷ l) = elim (deliver username l) [
  | none ↦ none
  | some cs ↦ some (got_im username m.from m.message m.flags m.mtime ∷ cs)
]

unfoldable pub free_data : List Node → List Node
free_data [] = []
free_data (n ∷ l) = freed ∷ free_data l

-- The nodes' data have been freed; the key that is removed is the bytes of a pointer, not the
-- username.
unfoldable pub forget : Chars → Chars → Table → Table
unfolding free_data lookup insert remove
forget pointer username t = elim (lookup username t) [
  | [] ↦ remove pointer t
  | n ∷ l ↦ remove pointer (insert username (free_data (n ∷ l)) t)
]

unfoldable pub fetch_offline : Chars → Chars → Plugin → Outcome
unfolding deliver forget lookup
fetch_offline pointer username p = elim (deliver username (lookup username p.goffline_messages)) [
  | none ↦ undefined
  | some cs ↦ returned 0 (record {
    goffline_messages = forget pointer username p.goffline_messages;
    calls = p.calls ++ cs;
  })
]

-- The calls before the stored messages are fetched.
unfoldable pub login_calls : Chars → List Call
unfolding split_at
login_calls username =
    let (name, host) = split_at username in
    set_display_name username name
    ∷ update_progress username (codes "Connecting") 0
    ∷ ssl_connect host
    ∷ update_progress username (codes "Connected") 1
    ∷ set_connected username
    ∷ []

unfoldable pub is_empty_text : Chars → Bool
is_empty_text [] = true
is_empty_text (c ∷ s) = false

-- For an empty username g_strsplit gives no part, and `userparts[1]` is not there.
unfoldable pub purplemot_login : Chars → Chars → Plugin → Outcome
unfolding has_space is_empty_text login_calls fetch_offline
purplemot_login pointer username p =
    if has_space username
    then returned 0
        (call (connection_error username (codes "Motmot server may not contain whitespace")) p)
    else if is_empty_text username
    then undefined
    else fetch_offline pointer username (record p { calls = p.calls ++ login_calls username })
