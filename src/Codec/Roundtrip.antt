-- ===== src/Codec/Roundtrip.antt =====
-- The packers of types/*.c against the unpackers.
use motmot.Base.{◌<◌, ◌≡◌, refl, Bool, true, false, none, some, arith, u32_mod, to_u32_lem}
use mathlib.Core.List.{append-nil}
use motmot.Core.{Header, Value}
use motmot.Session.{Acceptor, Instance, Request}
use motmot.Msgpack.{Obj, tokens, tokens_all, array, positive_integer, raw, boolean, cons, nil}
use motmot.Codec.{
  paxop_code, paxop_of_code, dkind_code, dkind_of_code, paxos_header_pack, paxos_header_unpack,
  paxos_value_pack, paxos_value_unpack, paxos_acceptor_pack, paxos_acceptor_unpack,
  paxos_instance_pack, paxos_instance_unpack, paxos_request_pack, paxos_request_unpack,
}

-- The header's numbers fit their C types, and its opcode is an enumerator.
pub record HeaderFits (h : Header) : Type 0 where
  pub id_fits : h.ph_ballot.id < u32_mod
  pub gen_fits : h.ph_ballot.gen < u32_mod
  pub inum_fits : h.ph_inum < u32_mod
  pub op_fits : paxop_code h.ph_opcode < u32_mod
  pub op_named : paxop_of_code (paxop_code h.ph_opcode) ≡ h.ph_opcode

pub record ValueFits (v : Value) : Type 0 where
  pub id_fits : v.pv_reqid.id < u32_mod
  pub gen_fits : v.pv_reqid.gen < u32_mod
  pub extra_fits : v.pv_extra < u32_mod
  pub kind_fits : dkind_code v.pv_dkind < u32_mod
  pub kind_named : dkind_of_code (dkind_code v.pv_dkind) ≡ v.pv_dkind

header_obj : Header → Obj
header_obj h = array (
    cons (positive_integer h.ph_session) (
      cons (positive_integer h.ph_ballot.id) (
        cons (positive_integer h.ph_ballot.gen) (
          cons (positive_integer (paxop_code h.ph_opcode))
            (cons (positive_integer h.ph_inum) nil)))))

value_obj : Value → Obj
value_obj v = array (
    cons (positive_integer (dkind_code v.pv_dkind)) (
      cons (positive_integer v.pv_reqid.id)
        (cons (positive_integer v.pv_reqid.gen) (cons (positive_integer v.pv_extra) nil))))

-- A header whose numbers fit their C types, and whose opcode is an enumerator, is packed to the
-- tokens of a msgpack object, and that object is unpacked to the header.
pub paxos_header-pack-unpack :
    (h : Header)
    → HeaderFits h
    → (o : Obj) × (paxos_header_pack h ≡ tokens o) × (paxos_header_unpack o ≡ some h)
unfolding paxos_header_pack tokens tokens_all paxos_header_unpack header_obj
paxos_header-pack-unpack h f = (
  header_obj h,
  refl,
  ground (
    arith,
    to_u32_lem h.ph_ballot.id f.id_fits,
    to_u32_lem h.ph_ballot.gen f.gen_fits,
    to_u32_lem h.ph_inum f.inum_fits,
    to_u32_lem (paxop_code h.ph_opcode) f.op_fits,
    f.op_named,
  ),
)

-- A value whose numbers fit their C types, and whose kind is an enumerator, is packed to the tokens
-- of a msgpack object, and that object is unpacked to the value.
pub paxos_value-pack-unpack :
    (v : Value)
    → ValueFits v
    → (o : Obj) × (paxos_value_pack v ≡ tokens o) × (paxos_value_unpack o ≡ some v)
unfolding paxos_value_pack tokens tokens_all paxos_value_unpack value_obj
paxos_value-pack-unpack v f = (
  value_obj v,
  refl,
  ground (
    arith,
    to_u32_lem v.pv_reqid.id f.id_fits,
    to_u32_lem v.pv_reqid.gen f.gen_fits,
    to_u32_lem v.pv_extra f.extra_fits,
    to_u32_lem (dkind_code v.pv_dkind) f.kind_fits,
    f.kind_named,
  ),
)

-- An acceptor whose identifier fits its C type is packed to the tokens of a msgpack object, and
-- that object is unpacked to the acceptor without its peer, since a pointer does not travel.
pub paxos_acceptor-pack-unpack :
    (a : Acceptor)
    → a.pa_paxid < u32_mod
    → (o : Obj) × (paxos_acceptor_pack a ≡ tokens o)
      × (paxos_acceptor_unpack o ≡ some (record a { pa_peer = none }))
unfolding paxos_acceptor_pack tokens tokens_all paxos_acceptor_unpack
paxos_acceptor-pack-unpack a f = (
  array (cons (positive_integer a.pa_paxid) (cons (raw a.pa_desc) nil)),
  refl,
  ground (arith, to_u32_lem a.pa_paxid f),
)

-- What an instance is after a journey: its flags and counts but `pi_committed` are zeroed.
abbrev pub sent_instance : Instance → Instance
sent_instance i = record i { pi_cached = false; pi_learned = false; pi_votes = 0; pi_rejects = 0 }

instance_tokens :
    (i : Instance) (b : Bool)
    → i.pi_committed ≡ b
    → (h v : Obj) → paxos_header_pack i.pi_hdr ≡ tokens h
    → paxos_value_pack i.pi_val ≡ tokens v
    → paxos_instance_pack i ≡ tokens (array (cons h (cons (boolean b) (cons v nil))))
unfolding paxos_instance_pack tokens tokens_all
instance_tokens i true e h v p q = rw (e, p, q, append-nil) refl
instance_tokens i false e h v p q = rw (e, p, q, append-nil) refl

-- An instance whose header's and value's numbers fit their C types, and whose opcode and kind are
-- enumerators, is packed to the tokens of a msgpack object, and that object is unpacked to it, with
-- its flags but `pi_committed`, its votes and its rejects zeroed.
pub paxos_instance-pack-unpack :
    (i : Instance)
    → HeaderFits i.pi_hdr
    → ValueFits i.pi_val
    → (o : Obj) × (paxos_instance_pack i ≡ tokens o)
      × (paxos_instance_unpack o ≡ some (sent_instance i))
unfolding paxos_instance_unpack
paxos_instance-pack-unpack i hf vf =
    let (h, hp, hu) = paxos_header-pack-unpack i.pi_hdr hf in
    let (v, vp, vu) = paxos_value-pack-unpack i.pi_val vf in
    (
      array (cons h (cons (boolean i.pi_committed) (cons v nil))),
      instance_tokens i i.pi_committed refl h v hp vp,
      rw (hu, vu),
    )

request_tokens :
    (q : Request) (v : Obj)
    → paxos_value_pack q.pr_val ≡ tokens v
    → paxos_request_pack q ≡ tokens (array (cons v (cons (raw q.pr_data) nil)))
unfolding paxos_request_pack tokens tokens_all
request_tokens q v p = rw p refl

-- A request whose value's numbers fit their C types, and whose kind is an enumerator, is packed to
-- the tokens of a msgpack object, and that object is unpacked to the request.
pub paxos_request-pack-unpack :
    (q : Request)
    → ValueFits q.pr_val
    → (o : Obj) × (paxos_request_pack q ≡ tokens o) × (paxos_request_unpack o ≡ some q)
unfolding paxos_request_unpack
paxos_request-pack-unpack q f =
    let (v, vp, vu) = paxos_value-pack-unpack q.pr_val f in
    (array (cons v (cons (raw q.pr_data) nil)), request_tokens q v vp, rw vu)
