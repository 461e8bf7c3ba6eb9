-- ===== src/State.antt =====
-- The entry points of libmotmot: paxos.c, paxos_sync of paxos_sync.c and session_new of
-- types/session.c, over the global state of paxos_state.h, and the public API of motmot.c.
use Prim.Native.Nat.{bit_or}
use motmot.Base.{
  ℕ, Bool, true, false, List, [], ◌∷◌, ◌++◌, Option, none, some, ◌==◌, inc32, if◌then◌else◌,
}
use motmot.Primitives.{pax_uuid_compare}
use motmot.Container.{find_fwd, insert_fwd}
use motmot.Core.{Dkind, dec_chat, dec_join, op_decree, op_welcome, Header, Value}
use motmot.Session.{
  Bytes, Acceptor, Instance, Request, Session, session_init, at, zero_instance, zero_ppair,
}
use motmot.SessionLocal.{set_at, remove_at}
use motmot.Msgpack.{Obj, Objs, nil, cons, as_array}
use motmot.Codec.{paxos_header_unpack}
use motmot.Util.{header_init, is_proposer}
use motmot.Request.{paxos_request}
use motmot.Sync.{proposer_sync}
use motmot.Greet.{acceptor_ack_welcome}
use motmot.Dispatch.{session_dispatch, connectinuate, drop_connection}
use motmot.Prepare.{paxos_end}
use motmot.Exec.{
  World, Event, sync_timer, Outcome, done, ended, fault, Fault, assert_failed, null_deref, M,
}
pub mod Sessions

-- `struct paxos_state state`, with what the client's callbacks return, and the log of events.
pub record State : Type 0 where
  pub connect : Bytes → ℕ
  pub freed_data : ℕ
  pub entered : ℕ
  pub sessions : List Session
  pub out : List Event

pub data Result : Type 0 where
  returned : ℕ → State → Result
  crashed : Fault → Result

abbrev pub session_key : Session → ℕ
session_key s = s.session_id

unfoldable pub session_find : ℕ → List Session → Option Session
session_find id l = find_fwd pax_uuid_compare session_key id l

unfoldable pub session_insert : Session → List Session → List Session × Session
session_insert s l = insert_fwd pax_uuid_compare session_key s l

abbrev world : State → Session → World
world st s = record { connect = st.connect; freed_data = st.freed_data; pax = s; out = st.out }

-- With what the client's callbacks return.
unfoldable pub paxos_init : (Bytes → ℕ) → ℕ → State → Result
paxos_init connect entered st =
    returned 0 (record st { connect = connect; entered = entered; sessions = [] })

-- After a handler: the session that was found is written back, or has left the list.
unfoldable pub settle : State → ℕ → Outcome ℕ → Result
settle st uuid (done r w) =
    returned r
      (record st { sessions = set_at session_key uuid (λ _. w.pax) st.sessions; out = w.out })
settle st uuid (ended w) =
    returned 1 (record st { sessions = remove_at session_key uuid st.sessions; out = w.out })
settle st uuid (fault e) = crashed e

unfoldable pub run_on : State → Session → M ℕ → Result
unfolding settle
run_on st s m = settle st s.session_id (m (world st s))

-- `session_new(NULL, 0)` inserts the session under identifier 0, before its own is known; an
-- insertion that finds one there leaves the new session off the list.
unfoldable pub settle_welcome : State → Outcome ℕ → Result
settle_welcome st (done r w) = returned r (record st {
  sessions = elim st.sessions [
    | [] ↦ w.pax ∷ []
    | s ∷ l ↦ if s.session_id == 0 then s ∷ l else w.pax ∷ s ∷ l
  ];
  out = w.out;
})
settle_welcome st (ended w) = returned 1 (record st { out = w.out })
settle_welcome st (fault e) = crashed e

-- A message without a payload is read past its array: as an object of no type that is expected.
abbrev payload : Objs → Obj
payload nil = Obj.other_type
payload (cons o os) = o

-- The header object and the payload; the array has one or two elements.
unfoldable pub message_parts : Obj → Option (Obj × Obj)
message_parts o = elim (as_array o) [
  | none ↦ none
  | some nil ↦ none
  | some (cons h nil) ↦ some (h, Obj.other_type)
  | some (cons h (cons p nil)) ↦ some (h, p)
  | some (cons h (cons p (cons q r))) ↦ none
]

abbrev is_welcome : Header → Bool
is_welcome hdr = elim hdr.ph_opcode [ op_welcome ↦ true | _ ↦ false ]

unfoldable pub dispatch_header : State → ℕ → Header → Obj → Result
unfolding settle_welcome run_on
dispatch_header st source hdr o = elim (session_find hdr.ph_session st.sessions) [
  | some s ↦ run_on st s (session_dispatch source hdr o)
  | none ↦
      if is_welcome hdr
      then settle_welcome st
          (acceptor_ack_welcome st.entered source hdr o (world st (session_init 0 0)))
      else returned 0 st
]

unfoldable pub paxos_dispatch : State → ℕ → Obj → Result
unfolding dispatch_header message_parts
paxos_dispatch st source o = elim (message_parts o) [
  | none ↦ crashed assert_failed
  | some (h, p) ↦ (elim (paxos_header_unpack h) [
    | none ↦ crashed assert_failed
    | some hdr ↦ dispatch_header st source hdr p
  ])
]

-- `return TRUE`, whatever `proposer_sync` returns, which keeps the timer going.
abbrev keep_timer : Result → Result
keep_timer (returned r st) = returned 1 st
keep_timer (crashed e) = crashed e

-- The timer's callback. A session that has ended is NULL here, and `is_proposer` reads through it.
unfoldable pub paxos_sync : State → ℕ → Result
paxos_sync st uuid = elim (session_find uuid st.sessions) [
  | none ↦ crashed null_deref
  | some s ↦ if is_proposer s then keep_timer (run_on st s proposer_sync) else returned 1 st
]

-- A continuation that the client calls, by its session and its place in the clist.
unfoldable pub continue_connection : State → ℕ → ℕ → Option ℕ → Result
continue_connection st uuid place chan = elim (session_find uuid st.sessions) [
  | none ↦ returned 0 st
  | some s ↦ run_on st s (connectinuate place chan)
]

-- The loop over the sessions, with the return codes so far.
unfoldable pub drop_from : State → ℕ → ℕ → List Session → Result
drop_from st source r [] = returned r st
drop_from st source r (s ∷ l) = elim (run_on st s (drop_connection source)) [
  | crashed e ↦ crashed e
  | returned r' st' ↦ drop_from st' source (bit_or r r') l
]

unfoldable pub paxos_drop_connection : State → ℕ → Result
unfolding drop_from
paxos_drop_connection st source = drop_from st source 0 st.sessions

-- The session that `paxos_start` sets up, once `session_new` has drawn its identifier.
unfoldable pub started : ℕ → ℕ → Bytes → Session
unfolding session_init
started uuid client desc =
    let s : Session = record (session_init uuid client) {
      self_id = 1;
      ballot = record { id = 1; gen = 1 };
      gen_high = 1;
      req_id = 1;
    } in
    let val : Value = record {
      pv_dkind = dec_join;
      pv_reqid = record { id = 1; gen = 1 };
      pv_extra = 0;
    } in
    record s {
      rcache = record { pr_val = val; pr_data = desc } ∷ [];
      ilist =
          record zero_instance {
            pi_hdr = header_init s op_decree 1;
            pi_committed = true;
            pi_cached = true;
            pi_learned = true;
            pi_votes = 1;
            pi_val = val;
          }
          ∷ [];
      ibase = 1;
      ihole = 2;
      istart = at 1;
      alist = record { pa_paxid = 1; pa_peer = none; pa_desc = desc } ∷ [];
      live_count = 1;
      proposer = some 1;
    }

-- `uuid` is what `/dev/urandom` gave.
unfoldable pub paxos_start : State → ℕ → ℕ → Bytes → State
unfolding started
paxos_start st uuid client desc = record st {
  sessions = (session_insert (started uuid client desc) st.sessions).0;
  out = st.out ++ sync_timer uuid ∷ [];
}

-- motmot_invite, motmot_send and motmot_disconnect, with the session as `data`.
unfoldable pub motmot_invite : State → Session → Bytes → Result
motmot_invite st s handle = run_on st s (paxos_request dec_join handle)

unfoldable pub motmot_send : State → Session → Bytes → Result
motmot_send st s message = run_on st s (paxos_request dec_chat message)

unfoldable pub motmot_disconnect : State → Session → Result
motmot_disconnect st s = run_on st s paxos_end
