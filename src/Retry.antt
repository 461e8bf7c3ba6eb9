-- ===== src/Retry.antt =====
-- libmotmot/src/paxos_retry.c but for acceptor_retry.
use motmot.Base.{ℕ, ◌++◌, if◌then◌else◌}
use motmot.Core.{op_recommit, Header}
use motmot.Session.{Instance, zero_instance}
use motmot.SessionLocal.{instance_find}
use motmot.Msgpack.{Obj, paxos_payload_begin_array}
use motmot.Codec.{paxos_header_pack, paxos_value_pack}
use motmot.Util.{instance_insert_and_upstart, write_instance, paxos_broadcast}
use motmot.Acceptor.{commit_value}
use motmot.Exec.{option_case, M, pure, gets, modify, need, assert_failed, ◌>>=◌, ◌>>◌}

unfoldable pub proposer_recommit : Header → Instance → M ℕ
proposer_recommit hdr inst = paxos_broadcast (
    paxos_payload_begin_array 2
    ++ (paxos_header_pack (record hdr { ph_opcode = op_recommit }) ++ paxos_value_pack inst.pi_val))

unfoldable pub proposer_ack_retry : Header → M ℕ
unfolding proposer_recommit
proposer_ack_retry hdr = do
  pax ← gets (λ s. s)
  inst ← need assert_failed (instance_find hdr.ph_inum pax.ilist)
  if inst.pi_committed then proposer_recommit hdr inst else pure 0

unfoldable pub acceptor_ack_recommit : Header → Obj → M ℕ
acceptor_ack_recommit hdr o = do
  pax ← gets (λ s. s)
  option_case (instance_find hdr.ph_inum pax.ilist)
      ((do
        modify (instance_insert_and_upstart (record zero_instance { pi_hdr = hdr }))
        commit_value hdr.ph_inum o))
      (λ inst. if inst.pi_committed then pure 0 else (do
        modify (write_instance inst.pi_hdr.ph_inum (λ i. record i { pi_hdr = hdr }))
        commit_value hdr.ph_inum o))
