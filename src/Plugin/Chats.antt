-- ===== src/Plugin/Chats.antt =====
-- Chat rooms and whispers (turquoise/purplemot.c).
use Prim.Native.Nat.{bit_or}
use motmot.Base.{ℕ, Bool, true, List, [], ◌∷◌, ◌++◌, Option, none, some, if◌then◌else◌}
use motmot.Base.Text.{Chars, codes}
use motmot.Plugin.{
  Call, got_joined_chat, notify_info, got_chat_invite, chat_write, chat_whisper, got_chat_in,
  Purple, get_purplemot_gc,
}
use motmot.Plugin.Offline.{is_empty_text}

-- What libpurple knows of chats.
pub record Chats : Type 0 where
  -- purple_find_chat, for a connection and an id: the conversation's name
  pub find_chat : Chars → ℕ → Option Chars
  -- g_str_hash
  pub str_hash : Chars → ℕ

unfoldable pub purplemot_join_chat : Chats → Chars → Chars → List Call
purplemot_join_chat chats username room = elim (chats.find_chat username (chats.str_hash room)) [
  | none ↦ got_joined_chat username (chats.str_hash room) room ∷ []
  | some conv ↦
      notify_info (some username)
        (username ++ (codes " is already in chat room " ++ (room ++ codes ".")))
      ∷ []
]

unfoldable pub purplemot_reject_chat : Purple → Chars → Chars → Chars → List Call
purplemot_reject_chat env username invited_by room =
    notify_info (get_purplemot_gc env invited_by) (
      username
      ++ (codes " has rejected your invitation to join the chat room " ++ (room ++ codes ".")))
    ∷ []

-- `none`: the conversation is not found, and its name is read; or the account of the name that is
-- invited has no connection, and NULL is passed on.
unfoldable pub purplemot_chat_invite :
    Purple → Chats → Chars → ℕ → Chars → Chars → Option (List Call)
purplemot_chat_invite env chats username id message who = elim (chats.find_chat username id) [
  | none ↦ none
  | some room ↦ elim (env.find_account who) [
    | none ↦ some []
    | some acct ↦
        if acct.has_connection
        then some (elim (chats.find_chat acct.username id) [
          | some conv ↦
              notify_info (some username)
                (who ++ (codes " is already in chat room " ++ (room ++ codes ".")))
              ∷ []
          | none ↦ got_chat_invite acct.username room username message ∷ []
        ])
        else none
  ]
]

-- PURPLE_CMD_RET_FAILED, with the text of the error, and PURPLE_CMD_RET_OK
pub data CmdRet : Type 0 where
  failed : Chars → CmdRet
  ok : List Call → CmdRet

-- `!s || strlen(s) == 0`
unfoldable pub is_missing : Option Chars → Bool
unfolding is_empty_text
is_missing none = true
is_missing (some s) = is_empty_text s

abbrev text_of : Option Chars → Chars
text_of none = []
text_of (some s) = s

-- In a chat of the given id, where `has_buddy` is purple_conv_chat_cb_find.
unfoldable pub send_whisper :
    Purple → (Chars → Bool) → ℕ → Chars → Option Chars → Option Chars → CmdRet
unfolding is_missing
send_whisper env has_buddy id from_username to message =
    let to_username : Chars = text_of to in
    let text : Chars = text_of message in
    if is_missing to
    then failed (codes "Whisper is missing recipient.")
    else if is_missing message
    then failed (codes "Whisper is missing message.")
    else if has_buddy to_username
    then (elim (get_purplemot_gc env to_username) [
      | none ↦ failed (to_username ++ codes " is not in this chat room.")
      | some gc ↦ ok (
          chat_write from_username (text ++ (codes " (to " ++ (to_username ++ codes ")")))
            (bit_or env.flag_send env.flag_whisper) env.now
          ∷ chat_whisper gc id from_username text
          ∷ [])
    ])
    else failed (to_username ++ codes " is not logged in.")

unfoldable pub purplemot_chat_whisper : Purple → Chars → ℕ → Chars → Chars → List Call
purplemot_chat_whisper env username id who message =
    got_chat_in username id who (bit_or env.flag_recv env.flag_whisper) message env.now ∷ []
