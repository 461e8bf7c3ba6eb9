-- ===== src/Objection.antt =====
-- The replies of libmotmot/src/paxos_reconnect.c by which an acceptor objects: acceptor_redirect,
-- acceptor_refuse and acceptor_reject.
use motmot.Base.{ℕ, ◌++◌, some}
use motmot.Core.{op_redirect, op_refuse, op_reject, Header}
use motmot.Session.{Request}
use motmot.Msgpack.{paxos_payload_begin_array}
use motmot.Codec.{paxos_header_pack, paxos_value_pack}
use motmot.Util.{
  header_init, header_message, paxos_peer_send, paxos_send_to_proposer, proposer_paxid,
}
use motmot.Exec.{M, gets, ◌>>=◌}

unfoldable pub acceptor_redirect : ℕ → Header → M ℕ
acceptor_redirect source orig_hdr = do
  p ← proposer_paxid
  hdr ← gets (λ s. header_init s op_redirect p)
  paxos_peer_send (some source)
      (paxos_payload_begin_array 2 ++ (paxos_header_pack hdr ++ paxos_header_pack orig_hdr))

unfoldable pub acceptor_refuse : ℕ → Header → Request → M ℕ
acceptor_refuse source orig_hdr req = do
  p ← proposer_paxid
  hdr ← gets (λ s. header_init s op_refuse p)
  paxos_peer_send (some source) (
      paxos_payload_begin_array 2
      ++ (paxos_header_pack hdr
          ++ (paxos_payload_begin_array 2
              ++ (paxos_header_pack orig_hdr ++ paxos_value_pack req.pr_val))))

unfoldable pub acceptor_reject : Header → M ℕ
acceptor_reject hdr = paxos_send_to_proposer (header_message (record hdr { ph_opcode = op_reject }))
