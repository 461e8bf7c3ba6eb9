-- ===== src/Sync.antt =====
-- libmotmot/src/paxos_sync.c: truncation of the log once everybody has learned it. `paxos_sync`,
-- which binds `pax` first, is in Dispatch.
use motmot.Base.{
  ℕ, Bool, true, false, not, ◌||◌, List, [], ◌∷◌, ◌++◌, Option, none, some, ◌==◌, ltb, leb, inc32,
  dec32, if◌then◌else◌, length,
}
use motmot.Core.{op_sync, op_last, op_truncate, Header, Reqid, ballot_compare}
use motmot.Session.{Instance, Request, Session, Sync}
use motmot.SessionLocal.{request_find, reqid_of}
use motmot.Core.{reqid_compare}
use motmot.Msgpack.{Obj, paxos_payload_begin_array}
use motmot.Codec.{paxos_header_pack, paxos_paxid_pack, paxos_paxid_unpack}
use motmot.Util.{err_ret, header_init, header_message, paxos_broadcast, paxos_send_to_proposer}
use motmot.Prepare.{is_none}
use motmot.Acceptor.{is_eq}
use motmot.Exec.{
  option_case, M, pure, gets, modify, assert, need, assert_failed, null_deref, ◌>>=◌, ◌>>◌,
}
pub mod Truncate

abbrev pub sync_skip_thresh : ℕ
sync_skip_thresh = 30

unfoldable pub new_sync : Session → Sync
new_sync pax = record { ps_total = length pax.alist; ps_acks = 1; ps_skips = 0; ps_last = 0 }

unfoldable pub begin_sync : M ℕ
unfolding new_sync
begin_sync = do
  modify (λ s. record s { sync = some (new_sync s); sync_id = inc32 s.sync_id })
  hdr ← gets (λ s. header_init s op_sync s.sync_id)
  paxos_broadcast (header_message hdr)

unfoldable pub proposer_sync : M ℕ
unfolding begin_sync
proposer_sync = do
  pax ← gets (λ s. s)
  if not (is_none pax.prep)
      then pure 1
      else if not (pax.live_count == length pax.alist)
      then pure 1
      else if dec32 pax.ihole == pax.sync_prev
      then pure 0
      else (option_case pax.sync (begin_sync) (λ sy. (do
        let skipped = record sy { ps_skips = inc32 sy.ps_skips }
        modify (λ s. record s { sync = some skipped })
        if ltb skipped.ps_skips sync_skip_thresh then pure 1 else begin_sync)))

unfoldable pub acceptor_last : Header → M ℕ
acceptor_last hdr = do
  hole ← gets (λ s. s.ihole)
  paxos_send_to_proposer (
      paxos_payload_begin_array 2
      ++ (paxos_header_pack (record hdr { ph_opcode = op_last }) ++ paxos_paxid_pack (dec32 hole)))

unfoldable pub acceptor_ack_sync : Header → M ℕ
unfolding acceptor_last
acceptor_ack_sync hdr = do
  pax ← gets (λ s. s)
  if is_eq (ballot_compare hdr.ph_ballot pax.ballot) then acceptor_last hdr else pure 0

-- LIST_REMOVE of the request that `request_find` found.
unfoldable pub request_remove : Reqid → List Request → List Request
request_remove id [] = []
request_remove id (x ∷ l) =
    let rest = request_remove id l in if is_eq (reqid_compare id (reqid_of x)) then l else x ∷ rest

-- The request of a truncated instance is freed, if it is cached.
unfoldable pub drop_request : Instance → List Request → List Request
unfolding request_remove
drop_request it rcache = elim (request_find it.pi_val.pv_reqid rcache) [
  | none ↦ rcache
  | some req ↦ request_remove it.pi_val.pv_reqid rcache
]

-- The ilist and the rcache after `ilist_truncate_prefix`.
unfoldable pub ilist_truncate_prefix :
    ℕ → List Instance → List Request → List Instance × List Request
unfolding drop_request
ilist_truncate_prefix inum [] rcache = ([], rcache)
ilist_truncate_prefix inum (it ∷ l) rcache =
    let rest = ilist_truncate_prefix inum l (drop_request it rcache) in
    if leb inum it.pi_hdr.ph_inum then (it ∷ l, rcache) else rest

unfoldable pub truncate : Session → Session
truncate s = record s {
  ilist = (ilist_truncate_prefix s.ibase s.ilist s.rcache).0;
  rcache = (ilist_truncate_prefix s.ibase s.ilist s.rcache).1;
}

-- The smaller of the acceptors' last learns and our own.
unfoldable pub sync_point : Session → Sync → ℕ
sync_point pax sy = if ltb (dec32 pax.ihole) sy.ps_last then dec32 pax.ihole else sy.ps_last

-- The truncation that follows the broadcast, and the end of the sync.
unfoldable pub end_sync : M ℕ
unfolding truncate
end_sync = do modify truncate; modify (λ s. record s { sync = none }); pure 0

unfoldable pub proposer_truncate : Header → M ℕ
unfolding sync_point
proposer_truncate hdr = do
  pax ← gets (λ s. s)
  sy ← need null_deref pax.sync
  let point = sync_point pax sy
  modify (λ s. record s { sync = some (record sy { ps_last = point }); sync_prev = point })
  assert (leb pax.ibase point)
  modify (λ s. record s { ibase = point })
  err_ret
      (paxos_broadcast (
        paxos_payload_begin_array 2
        ++ (paxos_header_pack (record hdr { ph_opcode = op_truncate }) ++ paxos_paxid_pack point)))
      end_sync

-- `ps_last` is 0 until the first reply.
unfoldable pub ack_last : ℕ → Sync → Sync
ack_last last sy = record sy {
  ps_last = if ltb last sy.ps_last || (sy.ps_last == 0) then last else sy.ps_last;
  ps_acks = inc32 sy.ps_acks;
}

unfoldable pub proposer_ack_last : Header → Obj → M ℕ
unfolding ack_last proposer_truncate
proposer_ack_last hdr o = do
  pax ← gets (λ s. s)
  if not (hdr.ph_inum == pax.sync_id) then pure 0 else (do
    last ← need assert_failed (paxos_paxid_unpack o)
    sy ← need null_deref pax.sync
    let acked = ack_last last sy
    modify (λ s. record s { sync = some acked })
    if acked.ps_acks == acked.ps_total then proposer_truncate hdr else pure 0)

unfoldable pub acceptor_ack_truncate : Obj → M ℕ
acceptor_ack_truncate o = do
  base ← need assert_failed (paxos_paxid_unpack o)
  modify (λ s. record s { ibase = base })
  modify truncate
  pure 0
