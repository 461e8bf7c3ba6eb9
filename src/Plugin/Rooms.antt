-- ===== src/Plugin/Rooms.antt =====
-- The list of chat rooms, purplemot_roomlist_get_list of turquoise/purplemot.c.
use motmot.Base.{
  ℕ, ◌≡◌, refl, sym, ◌∙◌, Bool, true, false, not, ap, Bool-cases, inl, inr, List, [], ◌∷◌, map,
  ◌||◌, arith,
}
use motmot.Base.Text.{Chars, equal, equal_refl, eq-of-equal}

-- What the loop reads of a PurpleConversation, and what it adds as a PurpleRoomlistRoom:
-- there the id is given by a pointer to it.
pub record Room : Type 0 where
  pub name : Chars
  pub id : ℕ

-- g_list_find_custom(seen_ids, name, strcmp)
unfoldable pub is_seen : Chars → List Chars → Bool
is_seen name [] = false
is_seen name (n ∷ seen_ids) = equal n name || is_seen name seen_ids

unfoldable pub add_rooms : List Chars → List Room → List Room
unfolding is_seen
add_rooms seen_ids [] = []
add_rooms seen_ids (conv ∷ chats) = elim (is_seen conv.name seen_ids) [
  | true ↦ add_rooms seen_ids chats
  | false ↦ conv ∷ add_rooms (conv.name ∷ seen_ids) chats
]

-- The rooms of the list, from those of purple_get_chats.
unfoldable pub purplemot_roomlist_get_list : List Room → List Room
unfolding add_rooms
purplemot_roomlist_get_list chats = add_rooms [] chats

abbrev pub names : List Room → List Chars
names chats = map (λ c. c.name) chats

abbrev pub AllDistinct : List Chars → Type 0
AllDistinct [] = Unit
AllDistinct (n ∷ ns) = (is_seen n ns ≡ false) × AllDistinct ns

add_rooms-seen :
    (seen_ids : List Chars) (c : Room) (cs : List Room)
    → is_seen c.name seen_ids ≡ true
    → add_rooms seen_ids (c ∷ cs) ≡ add_rooms seen_ids cs
unfolding add_rooms
add_rooms-seen seen_ids c cs e = rw (add_rooms, e) refl

add_rooms-new :
    (seen_ids : List Chars) (c : Room) (cs : List Room)
    → is_seen c.name seen_ids ≡ false
    → add_rooms seen_ids (c ∷ cs) ≡ c ∷ add_rooms (c.name ∷ seen_ids) cs
unfolding add_rooms
add_rooms-new seen_ids c cs e = rw (add_rooms, e) refl

-- One of two names is seen, and the other is not.
equal-seen :
    (k n : Chars) (seen_ids : List Chars) (b : Bool)
    → is_seen k seen_ids ≡ b
    → is_seen n seen_ids ≡ not b
    → equal k n ≡ false
equal-seen k n seen_ids b e h = elim (Bool-cases (equal k n)) [
  | inl q ↦
      let same = sym e ∙ (ap (λ j. is_seen j seen_ids) (eq-of-equal k n q) ∙ h) in ground arith
  | inr q ↦ q
]

is_seen-add_rooms :
    (n : Chars) (seen_ids : List Chars) (chats : List Room)
    → is_seen n seen_ids ≡ true
    → is_seen n (names (add_rooms seen_ids chats)) ≡ false
unfolding is_seen add_rooms
is_seen-add_rooms n seen_ids [] h = refl
is_seen-add_rooms n seen_ids (c ∷ cs) h = elim (Bool-cases (is_seen c.name seen_ids)) [
  | inl e ↦ rw (add_rooms-seen seen_ids c cs e) (is_seen-add_rooms n seen_ids cs h)
  | inr e ↦
      let q = equal-seen c.name n seen_ids false e h in
      rw (add_rooms-new seen_ids c cs e, q) (is_seen-add_rooms n (c.name ∷ seen_ids) cs (rw q h))
]

is_seen-add_rooms_new :
    (n : Chars) (seen_ids : List Chars) (chats : List Room)
    → is_seen n seen_ids ≡ false
    → is_seen n (names (add_rooms seen_ids chats)) ≡ is_seen n (names chats)
unfolding is_seen add_rooms
is_seen-add_rooms_new n seen_ids [] h = refl
is_seen-add_rooms_new n seen_ids (c ∷ cs) h = elim (Bool-cases (is_seen c.name seen_ids)) [
  | inl e ↦
      rw (add_rooms-seen seen_ids c cs e, equal-seen c.name n seen_ids true e h)
        (is_seen-add_rooms_new n seen_ids cs h)
  | inr e ↦ rw (add_rooms-new seen_ids c cs e) (elim (Bool-cases (equal c.name n)) [
    | inl q ↦ rw q refl
    | inr q ↦ rw q (is_seen-add_rooms_new n (c.name ∷ seen_ids) cs (rw q h))
  ])
]

add_rooms-AllDistinct :
    (seen_ids : List Chars) (chats : List Room) → AllDistinct (names (add_rooms seen_ids chats))
unfolding add_rooms is_seen
add_rooms-AllDistinct seen_ids [] = tt
add_rooms-AllDistinct seen_ids (c ∷ cs) = elim (Bool-cases (is_seen c.name seen_ids)) [
  | inl e ↦ rw (add_rooms-seen seen_ids c cs e) (add_rooms-AllDistinct seen_ids cs)
  | inr e ↦ rw (add_rooms-new seen_ids c cs e) (
    is_seen-add_rooms c.name (c.name ∷ seen_ids) cs (rw (equal_refl c.name) refl),
    add_rooms-AllDistinct (c.name ∷ seen_ids) cs,
  )
]

-- The list names each room once, and names the rooms that some conversation is in.
pub roomlist_get_list-AllDistinct :
    (chats : List Room)
    → AllDistinct (names (purplemot_roomlist_get_list chats))
      × ((n : Chars)
          → is_seen n (names (purplemot_roomlist_get_list chats)) ≡ is_seen n (names chats))
unfolding purplemot_roomlist_get_list is_seen
roomlist_get_list-AllDistinct chats =
    (add_rooms-AllDistinct [] chats, λ n. is_seen-add_rooms_new n [] chats refl)
