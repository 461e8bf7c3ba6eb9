-- ===== src/Plugin.antt =====
-- turquoise/purplemot.c, the plugin of Pidgin: what its callbacks ask of libpurple, and the messages
-- that it keeps for accounts that are offline. Debug output is left out, and translations of texts.
use motmot.Base.{ℕ, Bool, true, false, List, [], ◌∷◌, ◌++◌, Option, none, some, ◌&&◌, if◌then◌else◌}
use motmot.Base.Text.{Chars, equal}
pub mod Offline
pub mod Mailbox
pub mod Status
pub mod Chats
pub mod Rooms

-- What the code reads of a PurpleAccount.
pub record Account : Type 0 where
  pub username : Chars
  pub is_connected : Bool
  -- `gc` is not NULL
  pub has_connection : Bool
  pub user_info : Option Chars

-- Calls of libpurple. A connection is named by its account's username.
pub data Call : Type 0 where
  got_im : Chars → Chars → Chars → ℕ → ℕ → Call
  present_error : Chars → Chars → Call
  connection_error : Chars → Chars → Call
  set_display_name : Chars → Chars → Call
  update_progress : Chars → Chars → ℕ → Call
  set_connected : Chars → Call
  ssl_connect : Option Chars → Call
  got_user_status : Chars → Chars → Chars → Call
  got_joined_chat : Chars → ℕ → Chars → Call
  notify_info : Option Chars → Chars → Call
  got_chat_invite : Chars → Chars → Chars → Chars → Call
  chat_write : Chars → Chars → ℕ → ℕ → Call
  chat_whisper : Chars → ℕ → Chars → Chars → Call
  got_chat_in : Chars → ℕ → Chars → ℕ → Chars → ℕ → Call
  notify_error : Chars → Chars → Call
  notify_userinfo : Chars → Chars → Option Chars → Call

-- What libpurple knows when a callback runs.
pub record Purple : Type 0 where
  -- purple_accounts_find, for this protocol
  pub find_account : Chars → Option Account
  -- purple_privacy_check of an account, for a sender
  pub privacy_check : Chars → Chars → Bool
  pub now : ℕ
  -- PURPLE_MESSAGE_SEND, PURPLE_MESSAGE_RECV and PURPLE_MESSAGE_WHISPER
  pub flag_send : ℕ
  pub flag_recv : ℕ
  pub flag_whisper : ℕ

-- get_purplemot_gc
unfoldable pub get_purplemot_gc : Purple → Chars → Option Chars
get_purplemot_gc env username = elim (env.find_account username) [
  | none ↦ none
  | some acct ↦ if acct.is_connected then some acct.username else none
]
