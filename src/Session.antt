-- ===== src/Session.antt =====
-- libmotmot/src/types/session.h, session_local.h and continuation.h: the state of one session.
-- A pointer to an acceptor is its `pa_paxid` and a pointer to an instance its `ph_inum`, since the
-- lists hold one element for each; NULL is `none`. A `struct paxos_peer *` is a number.
use motmot.Base.{ℕ, Bool, false, List, [], Option, none}
use motmot.Primitives.{Ppair}
use motmot.Core.{Ballot, Header, Value, Paxop, Dkind}

-- Bytes: the opaque descriptors and messages of the client, with their sizes.
abbrev pub Bytes : Type 0
Bytes = List ℕ

pub record Acceptor : Type 0 where
  pub pa_paxid : ℕ
  pub pa_peer : Option ℕ
  pub pa_desc : Bytes

pub record Instance : Type 0 where
  pub pi_hdr : Header
  pub pi_committed : Bool
  pub pi_cached : Bool
  pub pi_learned : Bool
  pub pi_votes : ℕ
  pub pi_rejects : ℕ
  pub pi_val : Value

pub record Request : Type 0 where
  pub pr_val : Value
  pub pr_data : Bytes

-- What a continuation does once the client has connected: the `func` of `pk_cb`, with the member
-- of the union `pk_data` that it reads.
pub data Callback : Type 0 where
  continue_welcome continue_ack_welcome continue_ack_redirect : Callback
  continue_ack_refuse : Request → Callback
  continue_ack_reject : ℕ → Callback

pub record Continuation : Type 0 where
  pub pk_cb : Callback
  pub pk_session_id : ℕ
  pub pk_paxid : ℕ

-- A pointer to an instance: NULL; the head of the ilist, which is no instance; a node of the ilist; or a
-- node that a promise has taken off the ilist, with what it holds and where its `le_next` points.
-- Such a node is not freed. While the loop over the votes unpacks into it, it is `scratch`.
pub data Ref : Type 0 where
  null list_head : Ref
  at : ℕ → Ref
  off scratch : Instance → Ref → Ref

pub record Prep : Type 0 where
  pub pp_ballot : Ballot
  pub pp_acks : ℕ
  pub pp_redirects : ℕ
  pub pp_istart : Ref

pub record Sync : Type 0 where
  pub ps_total : ℕ
  pub ps_acks : ℕ
  pub ps_skips : ℕ
  pub ps_last : ℕ

pub record Session : Type 0 where
  pub session_id : ℕ
  pub client_data : ℕ
  pub self_id : ℕ
  pub req_id : ℕ
  pub proposer : Option ℕ
  pub ballot : Ballot
  pub gen_high : ℕ
  pub prep : Option Prep
  pub sync_id : ℕ
  pub sync_prev : ℕ
  pub sync : Option Sync
  pub live_count : ℕ
  pub alist : List Acceptor
  pub adefer : List Acceptor
  pub clist : List Continuation
  pub ilist : List Instance
  pub idefer : List Instance
  pub rcache : List Request
  pub ibase : ℕ
  pub ihole : ℕ
  pub istart : Ref

-- `g_malloc0`
abbrev pub zero_ppair : Ppair
zero_ppair = record { id = 0; gen = 0 }

abbrev pub zero_instance : Instance
zero_instance = record {
  pi_hdr = record {
    ph_session = 0;
    ph_ballot = zero_ppair;
    ph_opcode = Paxop.op_prepare;
    ph_inum = 0;
  };
  pi_committed = false;
  pi_cached = false;
  pi_learned = false;
  pi_votes = 0;
  pi_rejects = 0;
  pi_val = record { pv_dkind = Dkind.dec_null; pv_reqid = zero_ppair; pv_extra = 0 };
}

-- `session_new`, without the insertion into the list of sessions.
unfoldable pub session_init : ℕ → ℕ → Session
session_init uuid data' = record {
  session_id = uuid;
  client_data = data';
  self_id = 0;
  req_id = 0;
  proposer = none;
  ballot = zero_ppair;
  gen_high = 0;
  prep = none;
  sync_id = 0;
  sync_prev = 0;
  sync = none;
  live_count = 0;
  alist = [];
  adefer = [];
  clist = [];
  ilist = [];
  idefer = [];
  rcache = [];
  ibase = 0;
  ihole = 0;
  istart = Ref.null;
}
