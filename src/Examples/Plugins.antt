-- ===== src/Examples/Plugins.antt =====
-- Messages for a friend who is offline, and the rooms of two conversations.
use motmot.Base.{◌≡◌, refl, true, List, [], ◌∷◌, ◌++◌, none}
use motmot.Base.Text.{Chars, codes, equal}
use motmot.Plugin.{Purple, got_im, get_purplemot_gc}
use motmot.Plugin.Offline.{
  Plugin, undefined, returned, lookup, is_blocked, deliver, has_space, is_empty_text, login_calls,
  purplemot_login, live,
}
use motmot.Plugin.Mailbox.{
  Sending, Stored, send_all, pending, login-send_all, login-undefined_after,
}
use motmot.Plugin.Rooms.{
  Room, AllDistinct, names, is_seen, purplemot_roomlist_get_list, roomlist_get_list-AllDistinct,
}
use motmot.Client.{act, invite, send, returned, str_has_prefix}
use motmot.Client.Commands.{in_session, line_read, All-has_no_nul, input_loop-commands}

-- Nobody is online.
abbrev evening : Purple
evening = record {
  find_account = λ name. none;
  privacy_check = λ name from. true;
  now = 1700000000;
  flag_send = 1;
  flag_recv = 2;
  flag_whisper = 64;
}

abbrev to_ann : Sending
to_ann = record {
  env = evening;
  sender = codes "bob";
  recipient = codes "ann";
  text = codes "hello";
  flags = 1;
}

abbrev to_cat : Sending
to_cat = record {
  env = evening;
  sender = codes "bob";
  recipient = codes "cat";
  text = codes "soon";
  flags = 1;
}

abbrev sendings : List Sending
sendings = to_ann ∷ to_cat ∷ to_ann ∷ []

-- The bytes of a pointer.
abbrev pointer : Chars
pointer = 16 ∷ 160 ∷ []

to_ann-Stored : Stored to_ann
unfolding get_purplemot_gc is_blocked
to_ann-Stored = record { is_offline = refl; allowed = refl }

to_cat-Stored : Stored to_cat
unfolding get_purplemot_gc is_blocked
to_cat-Stored = record { is_offline = refl; allowed = refl }

login-send_all_example :
    (q r : Plugin) × (send_all sendings (record { goffline_messages = []; calls = [] })
      ≡ returned 1 q)
    × (purplemot_login pointer (codes "ann") q ≡ returned 0 r)
    × (r.calls ≡ login_calls (codes "ann") ++ pending (codes "ann") sendings)
unfolding has_space is_empty_text
login-send_all_example =
    login-send_all sendings pointer (codes "ann") []
      (to_ann-Stored, (to_cat-Stored, (to_ann-Stored, tt))) refl refl

abbrev ann_waits : Plugin
ann_waits = record {
  goffline_messages =
      (
        codes "ann",
        live (record { from = codes "bob"; message = codes "hello"; mtime = 5; flags = 2 }) ∷ [],
      )
      ∷ [];
  calls = [];
}

login-undefined_after_example :
    (r : Plugin) × (purplemot_login pointer (codes "ann") ann_waits ≡ returned 0 r)
    × (purplemot_login pointer (codes "ann") r ≡ undefined)
unfolding has_space is_empty_text lookup deliver equal
login-undefined_after_example =
    login-undefined_after pointer pointer (codes "ann") ann_waits
      (got_im (codes "ann") (codes "bob") (codes "hello") 2 5) [] refl refl refl refl

abbrev two_rooms : List Room
two_rooms =
    (record { name = codes "den"; id = 7 })
    ∷ (record { name = codes "den"; id = 7 })
    ∷ (record { name = codes "attic"; id = 8 })
    ∷ []

roomlist_get_list-AllDistinct_example :
    AllDistinct (names (purplemot_roomlist_get_list two_rooms))
    × ((n : Chars)
        → is_seen n (names (purplemot_roomlist_get_list two_rooms)) ≡ is_seen n (names two_rooms))
roomlist_get_list-AllDistinct_example = roomlist_get_list-AllDistinct two_rooms

input_loop-commands_example :
    (line_read (codes "/invite " ++ codes " x") (in_session [])
      ≡ returned 1 (act (invite (codes "x")) (in_session [])))
    × (line_read (codes "/part" ++ codes " x") (in_session []) ≡ returned 1 (in_session []))
    × (line_read (codes "hi") (in_session [])
        ≡ returned 1 (act (send (104 ∷ 105 ∷ 0 ∷ [])) (in_session [])))
unfolding str_has_prefix
input_loop-commands_example =
    input_loop-commands [] (codes " x") (codes "hi") (All-has_no_nul (codes " x") refl) refl refl
