-- ===== src/Util.antt =====
-- libmotmot/src/paxos_util.c and paxos_util.h, header_init of types/core.c, and paxos_peer_send of
-- paxos_io.c, whose append to the write buffer is the event `send`.
use Prim.Native.Nat.{bit_or}
use motmot.Base.{
  ℕ, ◌+◌, ◌/◌, Bool, true, false, ◌||◌, List, [], ◌∷◌, ◌++◌, Option, none, some, ◌==◌, inc32,
  if◌then◌else◌, length, get_last?,
}
use motmot.Core.{
  Paxop, op_decree, Header, Dkind, dec_null, dec_chat, dec_join, dec_part, dec_kill, dec_other,
  Value,
}
use motmot.Session.{Acceptor, Instance, Ref, at, Session, zero_instance}
use motmot.SessionLocal.{inum_of, paxid_of, instance_insert, instance_init_metadata, get_at, set_at}
use motmot.Msgpack.{Tok, paxos_payload_begin_array}
use motmot.Codec.{paxos_header_pack, paxos_value_pack}
use motmot.Exec.{
  option_case, M, pure, gets, modify, emit, fail, need, send, null_deref, dangling, ◌>>=◌, ◌>>◌,
}
pub mod Quorum
pub mod Quiet

-- `ERR_RET(r, cmd)` with the rest of the function.
unfoldable pub err_ret : M ℕ → M ℕ → M ℕ
err_ret cmd rest = do r ← cmd; if r == 0 then rest else pure r

-- `ERR_ACCUM(r, cmd)`, for the next value of `r`.
unfoldable pub err_accum : ℕ → M ℕ → M ℕ
err_accum r cmd = do r' ← cmd; pure (bit_or r r')

unfoldable pub is_proposer : Session → Bool
is_proposer pax = elim pax.proposer [ none ↦ false | some p ↦ pax.self_id == p ]

-- The loop of `reset_proposer`, over the rest of the list.
unfoldable pub first_eligible : ℕ → List Acceptor → Option ℕ
first_eligible self [] = none
first_eligible self (it ∷ l) = elim it.pa_peer [
  | some p ↦ some it.pa_paxid
  | none ↦ if it.pa_paxid == self then some it.pa_paxid else first_eligible self l
]

unfoldable pub reset_proposer : Session → Session
unfolding first_eligible
reset_proposer pax = elim (first_eligible pax.self_id pax.alist) [
  | none ↦ pax
  | some p ↦ record pax { proposer = some p }
]

unfoldable pub next_instance : Session → ℕ
next_instance pax = elim (get_last? pax.ilist) [ none ↦ 1 | some i ↦ inc32 i.pi_hdr.ph_inum ]

unfoldable pub majority : Session → ℕ
majority pax = length pax.alist / 2 + 1

unfoldable pub request_needs_cached : Dkind → Bool
request_needs_cached dec_chat = true
request_needs_cached dec_join = true
request_needs_cached dec_null = false
request_needs_cached dec_part = false
request_needs_cached dec_kill = false
request_needs_cached (dec_other n) = false

unfoldable pub header_init : Session → Paxop → ℕ → Header
header_init pax opcode inum = record {
  ph_session = pax.session_id;
  ph_ballot = pax.ballot;
  ph_opcode = opcode;
  ph_inum = inum;
}

unfoldable pub instance_insert_and_upstart : Instance → Session → Session
instance_insert_and_upstart inst pax = record pax {
  ilist = (instance_insert inst pax.ilist).0;
  istart = if inst.pi_hdr.ph_inum == pax.ihole then at inst.pi_hdr.ph_inum else pax.istart;
}

-- `*p` for a pointer to an acceptor of the alist.
unfoldable pub deref_acceptor : ℕ → M Acceptor
deref_acceptor p = do l ← gets (λ s. s.alist); need dangling (get_at paxid_of p l)

unfoldable pub deref_instance : ℕ → M Instance
deref_instance n = do l ← gets (λ s. s.ilist); need dangling (get_at inum_of n l)

unfoldable pub write_acceptor : ℕ → (Acceptor → Acceptor) → Session → Session
write_acceptor p f pax = record pax { alist = set_at paxid_of p f pax.alist }

unfoldable pub write_instance : ℕ → (Instance → Instance) → Session → Session
write_instance n f pax = record pax { ilist = set_at inum_of n f pax.ilist }

-- `pax->proposer->pa_paxid`
unfoldable pub proposer_paxid : M ℕ
proposer_paxid = do p ← gets (λ s. s.proposer); need null_deref p

-- Reading the write buffer of a NULL peer faults; otherwise the data is appended.
unfoldable pub paxos_peer_send : Option ℕ → List Tok → M ℕ
paxos_peer_send none py = fail null_deref
paxos_peer_send (some peer) py = do emit (send peer py); pure 0

unfoldable pub paxos_send : Acceptor → List Tok → M ℕ
paxos_send acc py = paxos_peer_send acc.pa_peer py

unfoldable pub paxos_send_to_proposer : List Tok → M ℕ
paxos_send_to_proposer py = do
  p ← gets (λ s. s.proposer)
  option_case p (pure 1) (λ id'. (do acc ← deref_acceptor id'; paxos_send acc py))

-- The loop of `paxos_broadcast`, with the value of `r` so far.
unfoldable pub broadcast_to : List Tok → ℕ → List Acceptor → M ℕ
broadcast_to py r [] = pure r
broadcast_to py r (acc ∷ l) =
    option_case acc.pa_peer (broadcast_to py r l)
      (λ p. (do r' ← err_accum r (paxos_send acc py); broadcast_to py r' l))

unfoldable pub paxos_broadcast : List Tok → M ℕ
unfolding broadcast_to
paxos_broadcast py = do l ← gets (λ s. s.alist); broadcast_to py 0 l

-- The header and the value of an instance, as one message.
unfoldable pub instance_message : Instance → List Tok
instance_message inst =
    paxos_payload_begin_array 2 ++ (paxos_header_pack inst.pi_hdr ++ paxos_value_pack inst.pi_val)

unfoldable pub paxos_broadcast_instance : Instance → M ℕ
paxos_broadcast_instance inst = paxos_broadcast (instance_message inst)

-- `paxos_payload_init(&py, 1)` and the header
unfoldable pub header_message : Header → List Tok
header_message hdr = paxos_payload_begin_array 1 ++ paxos_header_pack hdr

-- The instance that `proposer_decree_part` allocates, after `++pax->req_id`.
unfoldable pub part_instance : Session → ℕ → Bool → Instance
part_instance pax target force = record zero_instance {
  pi_val = record {
    pv_dkind = if force then dec_kill else dec_part;
    pv_reqid = record { id = pax.self_id; gen = pax.req_id };
    pv_extra = target;
  };
}

-- `paxos_commit`, `paxos_learn` and `proposer_prepare` call one another through
-- `proposer_decree_part`, whose call of `proposer_decree` is the argument `decree` here.
unfoldable pub proposer_decree_part_by : (Instance → M ℕ) → ℕ → Bool → M ℕ
unfolding part_instance
proposer_decree_part_by decree target force = do
  modify (λ s. record s { req_id = inc32 s.req_id })
  inst ← gets (λ s. part_instance s target force)
  prep ← gets (λ s. s.prep)
  option_case prep (decree inst)
      (λ pp. (do modify (λ s. record s { idefer = s.idefer ++ inst ∷ [] }); pure 0))
