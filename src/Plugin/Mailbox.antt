-- ===== src/Plugin/Mailbox.antt =====
-- The stored messages as mailboxes (turquoise/purplemot.c).
use mathlib.Core.List.{append_assoc, append-nil}
use motmot.Base.{
  ℕ, ◌≡◌, refl, sym, ap, ◌∙◌, false, List, [], ◌∷◌, ◌++◌, none, some, All, Bool-cases, inl, inr,
  arith, if◌then◌else◌,
}
use motmot.Base.Text.{Chars, equal, equal_refl, eq-of-equal}
use motmot.Plugin.{Call, got_im, Purple, get_purplemot_gc}
use motmot.Plugin.Offline.{
  OfflineMessage, Node, live, freed, Table, lookup, insert, remove, Plugin, Outcome, returned,
  undefined, receive_flags, store, is_blocked, purplemot_send_im, has_space, is_empty_text, deliver,
  free_data, forget, fetch_offline, login_calls, purplemot_login,
}

-- A call of purplemot_send_im.
pub record Sending : Type 0 where
  pub env : Purple
  pub sender : Chars
  pub recipient : Chars
  pub text : Chars
  pub flags : ℕ

-- The recipient is offline, and does not block the sender.
pub record Stored (s : Sending) : Type 0 where
  pub is_offline : get_purplemot_gc s.env s.recipient ≡ none
  pub allowed : is_blocked s.env s.recipient s.sender ≡ false

abbrev pub send : Sending → Plugin → Outcome
send s p = purplemot_send_im s.env s.sender s.recipient s.text s.flags p

abbrev pub then_with : Outcome → (Plugin → Outcome) → Outcome
then_with (returned r p) k = k p
then_with undefined k = undefined

abbrev pub send_all : List Sending → Plugin → Outcome
send_all [] p = returned 1 p
send_all (s ∷ ss) p = then_with (send s p) (send_all ss)

-- The message that is stored.
abbrev as_stored : Sending → OfflineMessage
as_stored s = record {
  from = s.sender;
  message = s.text;
  mtime = s.env.now;
  flags = receive_flags s.env s.flags;
}

-- What a username is to get, in the order in which it was sent.
abbrev pub pending : Chars → List Sending → List Call
pending u [] = []
pending u (s ∷ ss) =
    if equal s.recipient u
    then got_im u s.sender s.text (receive_flags s.env s.flags) s.env.now ∷ pending u ss
    else pending u ss

-- The same as nodes.
abbrev kept : Chars → List Sending → List Node
kept u [] = []
kept u (s ∷ ss) = if equal s.recipient u then live (as_stored s) ∷ kept u ss else kept u ss

abbrev stored : List Sending → Plugin → Plugin
stored [] p = p
stored (s ∷ ss) p = stored ss (store s.recipient (as_stored s) p)

send-store :
    (s : Sending) (p : Plugin)
    → Stored s
    → send s p ≡ returned 1 (store s.recipient (as_stored s) p)
unfolding purplemot_send_im
send-store s p h = rw (h.allowed, h.is_offline) refl

send_all-stored :
    (ss : List Sending) (p : Plugin) → All Stored ss → send_all ss p ≡ returned 1 (stored ss p)
send_all-stored [] p h = refl
send_all-stored (s ∷ ss) p (h, hs) =
    rw (send-store s p h) (send_all-stored ss (store s.recipient (as_stored s) p) hs)

lookup-insert_self : (k : Chars) (l : List Node) (t : Table) → lookup k (insert k l t) ≡ l
unfolding lookup insert
lookup-insert_self k l [] = rw (equal_refl k) refl
lookup-insert_self k l ((j, m) ∷ t) = ground (arith, lookup-insert_self k l t)

lookup-insert_ne :
    (k u : Chars) (l : List Node) (t : Table)
    → equal k u ≡ false
    → lookup u (insert k l t) ≡ lookup u t
unfolding lookup insert
lookup-insert_ne k u l [] h = rw h refl
lookup-insert_ne k u l ((j, m) ∷ t) h = elim (Bool-cases (equal j k)) [
  | inl e ↦ let other : equal j u ≡ false = rw (eq-of-equal j k e) h in ground arith
  | inr e ↦ ground (arith, lookup-insert_ne k u l t h)
]

lookup-store :
    (u k : Chars) (m : OfflineMessage) (p : Plugin)
    → lookup u (store k m p).goffline_messages ≡ (
        if equal k u
        then lookup u p.goffline_messages ++ live m ∷ []
        else lookup u p.goffline_messages)
unfolding store
lookup-store u k m p = elim (Bool-cases (equal k u)) [
  | inl e ↦
      let q = eq-of-equal k u e in
      rw (e, q)
        (lookup-insert_self u (lookup u p.goffline_messages ++ live m ∷ []) p.goffline_messages)
  | inr e ↦
      rw e
        (lookup-insert_ne k u (lookup k p.goffline_messages ++ live m ∷ []) p.goffline_messages e)
]

lookup-stored :
    (u : Chars) (ss : List Sending) (p : Plugin)
    → lookup u (stored ss p).goffline_messages ≡ lookup u p.goffline_messages ++ kept u ss
lookup-stored u [] p = sym (append-nil (lookup u p.goffline_messages))
lookup-stored u (s ∷ ss) p =
    lookup-stored u ss (store s.recipient (as_stored s) p)
    ∙ ap (λ l. l ++ kept u ss) (lookup-store u s.recipient (as_stored s) p)
    ∙ (elim (Bool-cases (equal s.recipient u)) [
      | inl e ↦
          rw e (append_assoc (lookup u p.goffline_messages) (live (as_stored s) ∷ []) (kept u ss))
      | inr e ↦ rw e refl
    ])

calls-stored : (ss : List Sending) (p : Plugin) → (stored ss p).calls ≡ p.calls
unfolding store
calls-stored [] p = refl
calls-stored (s ∷ ss) p = calls-stored ss (store s.recipient (as_stored s) p)

deliver-kept : (u : Chars) (ss : List Sending) → deliver u (kept u ss) ≡ some (pending u ss)
unfolding deliver
deliver-kept u [] = refl
deliver-kept u (s ∷ ss) = elim (Bool-cases (equal s.recipient u)) [
  | inl e ↦ rw (e, deliver-kept u ss) refl
  | inr e ↦ rw e (deliver-kept u ss)
]

fetch-deliver :
    (pointer u : Chars) (p : Plugin) (cs : List Call)
    → deliver u (lookup u p.goffline_messages) ≡ some cs
    → fetch_offline pointer u p
      ≡ returned 0 (record {
        goffline_messages = forget pointer u p.goffline_messages;
        calls = p.calls ++ cs;
      })
unfolding fetch_offline
fetch-deliver pointer u p cs d = rw (fetch_offline, d) refl

-- A login that fetches messages which can all be read.
login-deliver :
    (pointer u : Chars) (p : Plugin) (cs : List Call)
    → has_space u ≡ false
    → is_empty_text u ≡ false
    → deliver u (lookup u p.goffline_messages) ≡ some cs
    → (r : Plugin) × (purplemot_login pointer u p ≡ returned 0 r)
      × (r.calls ≡ p.calls ++ (login_calls u ++ cs))
      × (r.goffline_messages ≡ forget pointer u p.goffline_messages)
unfolding purplemot_login
login-deliver pointer u p cs h e d = (
  record {
    goffline_messages = forget pointer u p.goffline_messages;
    calls = (p.calls ++ login_calls u) ++ cs;
  },
  rw (h, e) (fetch-deliver pointer u (record p { calls = p.calls ++ login_calls u }) cs d),
  append_assoc p.calls (login_calls u) cs,
  refl,
)

lookup-remove_ne :
    (k u : Chars) (t : Table) → equal k u ≡ false → lookup u (remove k t) ≡ lookup u t
unfolding lookup remove
lookup-remove_ne k u [] h = refl
lookup-remove_ne k u ((j, m) ∷ t) h = elim (Bool-cases (equal j k)) [
  | inl e ↦ let other : equal j u ≡ false = rw (eq-of-equal j k e) h in rw (e, other) refl
  | inr e ↦ ground (arith, lookup-remove_ne k u t h)
]

lookup-forget :
    (pointer u : Chars) (t : Table) (n : Node) (l : List Node)
    → equal pointer u ≡ false
    → lookup u t ≡ n ∷ l
    → lookup u (forget pointer u t) ≡ freed ∷ free_data l
unfolding forget free_data
lookup-forget pointer u t n l h e =
    rw (forget, e)
      (lookup-remove_ne pointer u (insert u (freed ∷ free_data l) t) h
        ∙ lookup-insert_self u (freed ∷ free_data l) t)

cons-of-deliver :
    (u : Chars) (l : List Node) (c : Call) (cs : List Call)
    → deliver u l ≡ some (c ∷ cs)
    → (n : Node) × (r : List Node) × (l ≡ n ∷ r)
unfolding deliver
cons-of-deliver u [] c cs d = ground arith
cons-of-deliver u (n ∷ r) c cs d = (n, r, refl)

-- A login that finds a node whose data is freed.
login-undefined :
    (pointer u : Chars) (p : Plugin) (l : List Node)
    → has_space u ≡ false
    → is_empty_text u ≡ false
    → lookup u p.goffline_messages ≡ freed ∷ l
    → purplemot_login pointer u p ≡ undefined
unfolding purplemot_login fetch_offline deliver
login-undefined pointer u p l h n e = rw (h, n, fetch_offline, e) refl

-- A login that finds messages which can be read delivers them and frees them. It removes its table
-- entry by the bytes of the pointer to the username: where these are not the username's, the next
-- login of that username reads the freed messages.
pub login-undefined_after :
    (pointer again u : Chars) (p : Plugin) (c : Call) (cs : List Call)
    → has_space u ≡ false
    → is_empty_text u ≡ false
    → equal pointer u ≡ false
    → deliver u (lookup u p.goffline_messages) ≡ some (c ∷ cs)
    → (r : Plugin) × (purplemot_login pointer u p ≡ returned 0 r)
      × (purplemot_login again u r ≡ undefined)
login-undefined_after pointer again u p c cs h n x d =
    let (m, l, e) = cons-of-deliver u (lookup u p.goffline_messages) c cs d in
    let (r, q, f, g) = login-deliver pointer u p (c ∷ cs) h n d in
    let found = ap (lookup u) g ∙ lookup-forget pointer u p.goffline_messages m l x e in
    (r, q, login-undefined again u r (free_data l) h n found)

-- If nothing is stored, and messages are sent to recipients that are offline and block no sender, then
-- each is stored; and the next login of a username that is not empty and
-- has no white space gets, after the calls that set up its
-- connection, exactly the messages that were sent to it, in their order.
pub login-send_all :
    (ss : List Sending) (pointer u : Chars) (calls : List Call)
    → All Stored ss
    → has_space u ≡ false
    → is_empty_text u ≡ false
    → (q r : Plugin) × (send_all ss (record { goffline_messages = []; calls = calls })
        ≡ returned 1 q)
      × (purplemot_login pointer u q ≡ returned 0 r)
      × (r.calls ≡ calls ++ (login_calls u ++ pending u ss))
unfolding lookup
login-send_all ss pointer u calls h w n =
    let p : Plugin = record { goffline_messages = []; calls = calls } in
    let found = ap (deliver u) (lookup-stored u ss p) ∙ deliver-kept u ss in
    let (r, e, c, t) = login-deliver pointer u (stored ss p) (pending u ss) w n found in
    (
      stored ss p,
      r,
      send_all-stored ss p h,
      e,
      c ∙ ap (λ l. l ++ (login_calls u ++ pending u ss)) (calls-stored ss p),
    )
