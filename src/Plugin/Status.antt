-- ===== src/Plugin/Status.antt =====
-- Statuses, buddies and user information (turquoise/purplemot.c).
use motmot.Base.{
  ℕ, ◌≡◌, refl, sym, ap, ◌∙◌, ◌⊎◌, inl, inr, Bool, Bool-cases, List, [], ◌∷◌, ◌++◌, Option, none,
  some, ◌==◌, ◌||◌, if◌then◌else◌, arith,
}
use motmot.Base.Text.{Chars, equal, eq-of-equal, codes}
use motmot.Msgpack.{Tok}
use motmot.Rpc.{rpc_login, rpc_get_all_statuses, rpc_register_status, rpc_unregister_friend}
use motmot.Plugin.{Call, got_user_status, notify_error, notify_userinfo, Purple, get_purplemot_gc}

-- NULL_STATUS_ONLINE, NULL_STATUS_AWAY and NULL_STATUS_OFFLINE
abbrev pub status_online : Chars
status_online = codes "online"

abbrev pub status_away : Chars
status_away = codes "away"

abbrev pub status_offline : Chars
status_offline = codes "offline"

-- motmot_status_t
abbrev pub online : ℕ
online = 1

abbrev pub away : ℕ
away = 2

abbrev pub offline : ℕ
offline = 3

abbrev pub busy : ℕ
busy = 4

-- The tests of motmot_report_status.
unfoldable pub status_code : Chars → Option ℕ
status_code id =
    if equal id status_online
    then some online
    else if equal id status_away
    then some away
    else if equal id status_offline
    then some offline
    else none

-- What it writes to the discovery server.
unfoldable pub motmot_report_status : Chars → List Tok
unfolding status_code
motmot_report_status id = elim (status_code id) [ none ↦ [] | some code ↦ rpc_register_status code ]

unfoldable pub update_remote_status : Chars → Chars → ℕ → List Call
update_remote_status a friend_name status =
    if status == online
    then got_user_status a friend_name status_online ∷ []
    else if (status == away) || (status == busy)
    then got_user_status a friend_name status_away ∷ []
    else if status == offline
    then got_user_status a friend_name status_offline ∷ []
    else []

-- rpc_connect_success, of turquoise/rpc_io.c: what is written when the discovery server is reached.
unfoldable pub rpc_connect_success : Chars → Chars → List Tok
rpc_connect_success username password = rpc_login username password ++ rpc_get_all_statuses

unfoldable pub purplemot_remove_buddies : List Chars → List Chars → List Tok
purplemot_remove_buddies [] groups = []
purplemot_remove_buddies (b ∷ buddies) [] = []
purplemot_remove_buddies (b ∷ buddies) (g ∷ groups) =
    rpc_unregister_friend b ++ purplemot_remove_buddies buddies groups

-- The text of a buddy, by the name and the message of its active status.
unfoldable pub purplemot_status_text : Bool → Chars → Option Chars → Chars
purplemot_status_text is_buddy name message =
    if is_buddy
    then (elim message [
      | none ↦ name
      | some m ↦ elim m [ [] ↦ name | c ∷ cs ↦ name ++ (codes ": " ++ (c ∷ cs)) ]
    ])
    else codes "Not logged in"

-- The pairs that are added to the tooltip. `user_info` is that of the account of the connection.
unfoldable pub purplemot_tooltip_text :
    Purple → Chars → Bool → Chars → Option Chars → Option Chars → Bool → List (Chars × Chars)
unfolding purplemot_status_text
purplemot_tooltip_text env buddy is_buddy name message user_info full =
    elim (get_purplemot_gc env buddy) [
      | none ↦ (codes "User info", codes "not logged in") ∷ []
      | some gc ↦
          (name, purplemot_status_text is_buddy name message)
          ∷ (if full
              then (elim user_info [ none ↦ [] | some text ↦ (codes "User info", text) ∷ [] ])
              else [])
    ]

unfoldable pub purplemot_get_info : Purple → Chars → Chars → List Call
purplemot_get_info env a username =
    (elim (get_purplemot_gc env username) [
      | none ↦ notify_error a (username ++ codes " is not logged in.") ∷ []
      | some gc ↦ []
    ])
    ++ (notify_userinfo a username (elim (env.find_account username) [
      | none ↦ some (codes "No user info.")
      | some acct ↦ acct.user_info
    ])
        ∷ [])

-- What the tests of a status find.
status_code-cases :
    (id : Chars)
    → (id ≡ status_online)
      ⊎ ((id ≡ status_away) ⊎ ((id ≡ status_offline) ⊎ (status_code id ≡ none)))
unfolding status_code
status_code-cases id = elim (Bool-cases (equal id status_online)) [
  | inl e ↦ inl (eq-of-equal id status_online e)
  | inr o ↦ elim (Bool-cases (equal id status_away)) [
    | inl e ↦ inr (inl (eq-of-equal id status_away e))
    | inr w ↦ elim (Bool-cases (equal id status_offline)) [
      | inl e ↦ inr (inr (inl (eq-of-equal id status_offline e)))
      | inr f ↦ inr (inr (inr (rw (status_code, o, w, f) refl)))
    ]
  ]
]

report_status-code :
    (id : Chars) (code : ℕ)
    → status_code id ≡ some code
    → motmot_report_status id ≡ rpc_register_status code
unfolding motmot_report_status
report_status-code id code h = rw (motmot_report_status, h) refl

-- A status is shown as another of the same code is.
shown-as :
    (i id a friend : Chars) (c code : ℕ)
    → id ≡ i
    → status_code i ≡ some c
    → status_code id ≡ some code
    → update_remote_status a friend c ≡ got_user_status a friend i ∷ []
    → update_remote_status a friend code ≡ got_user_status a friend id ∷ []
shown-as i id a friend c code e t h u =
    let same : c ≡ code = let z = sym t ∙ (ap status_code (sym e) ∙ h) in ground arith in
    rw (e, sym same) u

update_remote_status-code :
    (id a friend : Chars) (code : ℕ)
    → status_code id ≡ some code
    → update_remote_status a friend code ≡ got_user_status a friend id ∷ []
unfolding update_remote_status status_code equal
update_remote_status-code id a friend code h = elim (status_code-cases id) [
  | inl e ↦ shown-as status_online id a friend online code e refl h refl
  | inr (inl e) ↦ shown-as status_away id a friend away code e refl h refl
  | inr (inr (inl e)) ↦ shown-as status_offline id a friend offline code e refl h refl
  | inr (inr (inr e)) ↦ let z = sym e ∙ h in ground arith
]

-- The statuses that the plugin offers have codes: what it reports to the server for one of them, it
-- shows as the same status when the server tells it of a friend.
pub report_status-update :
    (id a friend : Chars) (code : ℕ)
    → status_code id ≡ some code
    → (motmot_report_status id ≡ rpc_register_status code)
      × (update_remote_status a friend code ≡ got_user_status a friend id ∷ [])
report_status-update id a friend code h =
    (report_status-code id code h, update_remote_status-code id a friend code h)
