-- ===== src/Examples/Wire.antt =====
-- Messages at concrete values.
use motmot.Base.{◌≡◌, refl, [], ◌∷◌, some, none, arith}
use motmot.Base.Text.{codes}
use motmot.Print.{paxos_header_print}
use motmot.Print.Readback.{read_header, read_header-paxos_header_print}
use motmot.Session.{Instance, Request}
use motmot.Msgpack.{Obj, tokens}
use motmot.Codec.{
  paxop_code, paxop_of_code, dkind_code, dkind_of_code, paxos_acceptor_pack, paxos_acceptor_unpack,
  paxos_instance_pack, paxos_instance_unpack, paxos_request_pack, paxos_request_unpack,
}
use motmot.Codec.Roundtrip.{
  HeaderFits, ValueFits, paxos_acceptor-pack-unpack, sent_instance, paxos_instance-pack-unpack,
  paxos_request-pack-unpack,
}
use motmot.Examples.{chat_value, decree_header, first_acceptor, committed}

decree-HeaderFits : HeaderFits decree_header
unfolding paxop_code paxop_of_code
decree-HeaderFits = record {
  id_fits = omega arith;
  gen_fits = omega arith;
  inum_fits = omega arith;
  op_fits = omega arith;
  op_named = refl;
}

chat-ValueFits : ValueFits chat_value
unfolding dkind_code dkind_of_code
chat-ValueFits = record {
  id_fits = omega arith;
  gen_fits = omega arith;
  extra_fits = omega arith;
  kind_fits = omega arith;
  kind_named = refl;
}

abbrev decreed_chat : Instance
decreed_chat = record (committed 5) { pi_hdr = decree_header; pi_val = chat_value }

abbrev chat_request : Request
chat_request = record { pr_val = chat_value; pr_data = 104 ∷ 105 ∷ [] }

read_header-paxos_header_print_example :
    read_header (paxos_header_print decree_header [] (codes "\n") [])
    ≡ some (
      decree_header.ph_opcode,
      (decree_header.ph_ballot.id, (decree_header.ph_ballot.gen, (decree_header.ph_inum, 10 ∷ []))),
    )
read_header-paxos_header_print_example = read_header-paxos_header_print decree_header [] refl

paxos_acceptor-pack-unpack_example :
    (o : Obj) × (paxos_acceptor_pack first_acceptor ≡ tokens o)
    × (paxos_acceptor_unpack o ≡ some (record first_acceptor { pa_peer = none }))
paxos_acceptor-pack-unpack_example = paxos_acceptor-pack-unpack first_acceptor (omega arith)

paxos_instance-pack-unpack_example :
    (o : Obj) × (paxos_instance_pack decreed_chat ≡ tokens o)
    × (paxos_instance_unpack o ≡ some (sent_instance decreed_chat))
paxos_instance-pack-unpack_example =
    paxos_instance-pack-unpack decreed_chat decree-HeaderFits chat-ValueFits

paxos_request-pack-unpack_example :
    (o : Obj) × (paxos_request_pack chat_request ≡ tokens o)
    × (paxos_request_unpack o ≡ some chat_request)
paxos_request-pack-unpack_example = paxos_request-pack-unpack chat_request chat-ValueFits
