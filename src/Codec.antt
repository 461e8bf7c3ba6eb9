-- ===== src/Codec.antt =====
-- The msgpack helpers of libmotmot/src/types: primitives.c, core.c and session_local.c. A packer
-- gives the calls that it makes, in order; an unpacker gives `none` where an `assert` fails.
use motmot.Base.{
  ℕ, Bool, true, false, List, [], ◌∷◌, ◌++◌, Option, none, some, length, to_u32, ◌==◌,
  if◌then◌else◌,
}
use motmot.Primitives.{Ppair}
use motmot.Core.{
  Paxop, op_prepare, op_promise, op_decree, op_accept, op_commit, op_welcome, op_hello, op_request,
  op_retrieve, op_resend, op_redirect, op_refuse, op_reject, op_retry, op_recommit, op_sync,
  op_last, op_truncate, op_other, Header, Dkind, dec_null, dec_chat, dec_join, dec_part, dec_kill,
  dec_other, Value,
}
use motmot.Session.{Acceptor, Instance, Request}
use motmot.Msgpack.{
  Tok, pack_array, pack_uint, pack_raw, pack_raw_body, pack_true, pack_false, Obj, Objs, nil, cons,
  as_uint, as_raw, as_boolean, array,
}
pub mod Roundtrip

infixl 5 ◌>>=◌
abbrev pub ◌>>=◌ : {A B : Type 0} → Option A → (A → Option B) → Option B
none >>= f = none
some a >>= f = f a

-- The numbers of the enumerators.
unfoldable pub paxop_code : Paxop → ℕ
paxop_code op_prepare = 0
paxop_code op_promise = 1
paxop_code op_decree = 2
paxop_code op_accept = 3
paxop_code op_commit = 4
paxop_code op_welcome = 5
paxop_code op_hello = 6
paxop_code op_request = 7
paxop_code op_retrieve = 8
paxop_code op_resend = 9
paxop_code op_redirect = 10
paxop_code op_refuse = 11
paxop_code op_reject = 12
paxop_code op_retry = 13
paxop_code op_recommit = 14
paxop_code op_sync = 15
paxop_code op_last = 16
paxop_code op_truncate = 17
paxop_code (op_other n) = n

abbrev nth_or {ℓ} : {A : Type ℓ} → List A → ℕ → A → A
nth_or [] n d = d
nth_or (x ∷ xs) ℕ.zero d = x
nth_or (x ∷ xs) (ℕ.suc n) d = nth_or xs n d

abbrev pub paxops : List Paxop
paxops =
    op_prepare ∷ op_promise ∷ op_decree ∷ op_accept ∷ op_commit ∷ op_welcome ∷ op_hello ∷ op_request
    ∷ op_retrieve ∷ op_resend ∷ op_redirect ∷ op_refuse ∷ op_reject ∷ op_retry ∷ op_recommit
    ∷ op_sync ∷ op_last ∷ op_truncate ∷ []

unfoldable pub paxop_of_code : ℕ → Paxop
paxop_of_code n = nth_or paxops n (op_other n)

unfoldable pub dkind_code : Dkind → ℕ
dkind_code dec_null = 0
dkind_code dec_chat = 1
dkind_code dec_join = 2
dkind_code dec_part = 3
dkind_code dec_kill = 4
dkind_code (dec_other n) = n

unfoldable pub dkind_of_code : ℕ → Dkind
dkind_of_code n = nth_or (dec_null ∷ dec_chat ∷ dec_join ∷ dec_part ∷ dec_kill ∷ []) n (dec_other n)

unfoldable pub paxos_paxid_pack : ℕ → List Tok
paxos_paxid_pack paxid = pack_uint paxid ∷ []

-- `*paxid = o->via.u64` keeps the lower 32 bits.
unfoldable pub paxos_paxid_unpack : Obj → Option ℕ
paxos_paxid_unpack o = do n ← as_uint o; some (to_u32 n)

unfoldable pub paxos_uuid_pack : ℕ → List Tok
paxos_uuid_pack uuid = pack_uint uuid ∷ []

unfoldable pub paxos_uuid_unpack : Obj → Option ℕ
paxos_uuid_unpack o = as_uint o

unfoldable pub paxos_header_pack : Header → List Tok
unfolding paxos_uuid_pack paxos_paxid_pack paxop_code
paxos_header_pack hdr =
    pack_array 5
    ∷ (paxos_uuid_pack hdr.ph_session
        ++ (paxos_paxid_pack hdr.ph_ballot.id
            ++ (paxos_paxid_pack hdr.ph_ballot.gen
                ++ (pack_uint (paxop_code hdr.ph_opcode) ∷ paxos_paxid_pack hdr.ph_inum))))

unfoldable pub paxos_header_unpack : Obj → Option Header
unfolding paxos_uuid_unpack paxos_paxid_unpack paxop_of_code
paxos_header_unpack (array (cons a (cons b (cons c (cons d (cons e nil)))))) = do
  session ← paxos_uuid_unpack a
  id' ← paxos_paxid_unpack b
  gen' ← paxos_paxid_unpack c
  opcode ← paxos_paxid_unpack d
  inum ← paxos_paxid_unpack e
  some (record {
    ph_session = session;
    ph_ballot = record { id = id'; gen = gen' };
    ph_opcode = paxop_of_code opcode;
    ph_inum = inum;
  })
paxos_header_unpack _ = none

unfoldable pub paxos_value_pack : Value → List Tok
unfolding paxos_paxid_pack dkind_code
paxos_value_pack val =
    pack_array 4
    ∷ pack_uint (dkind_code val.pv_dkind)
    ∷ (paxos_paxid_pack val.pv_reqid.id
        ++ (paxos_paxid_pack val.pv_reqid.gen ++ paxos_paxid_pack val.pv_extra))

unfoldable pub paxos_value_unpack : Obj → Option Value
unfolding paxos_paxid_unpack dkind_of_code
paxos_value_unpack (array (cons a (cons b (cons c (cons d nil))))) = do
  dkind ← paxos_paxid_unpack a
  id' ← paxos_paxid_unpack b
  gen' ← paxos_paxid_unpack c
  extra ← paxos_paxid_unpack d
  some (record {
    pv_dkind = dkind_of_code dkind;
    pv_reqid = record { id = id'; gen = gen' };
    pv_extra = extra;
  })
paxos_value_unpack _ = none

-- The descriptor's size and then its bytes.
unfoldable pub paxos_acceptor_pack : Acceptor → List Tok
unfolding paxos_paxid_pack
paxos_acceptor_pack acc =
    pack_array 2
    ∷ (paxos_paxid_pack acc.pa_paxid
        ++ (pack_raw (length acc.pa_desc) ∷ pack_raw_body acc.pa_desc ∷ []))

unfoldable pub paxos_acceptor_unpack : Obj → Option Acceptor
unfolding paxos_paxid_unpack
paxos_acceptor_unpack (array (cons a (cons b nil))) = do
  paxid ← paxos_paxid_unpack a
  desc ← as_raw b
  some (record { pa_paxid = paxid; pa_peer = none; pa_desc = desc })
paxos_acceptor_unpack _ = none

unfoldable pub paxos_instance_pack : Instance → List Tok
paxos_instance_pack inst =
    pack_array 3
    ∷ (paxos_header_pack inst.pi_hdr
        ++ ((if inst.pi_committed then pack_true else pack_false) ∷ paxos_value_pack inst.pi_val))

unfoldable pub paxos_instance_unpack : Obj → Option Instance
paxos_instance_unpack (array (cons a (cons b (cons c nil)))) = do
  hdr ← paxos_header_unpack a
  committed ← as_boolean b
  val ← paxos_value_unpack c
  some (record {
    pi_hdr = hdr;
    pi_committed = committed;
    pi_cached = false;
    pi_learned = false;
    pi_votes = 0;
    pi_rejects = 0;
    pi_val = val;
  })
paxos_instance_unpack _ = none

unfoldable pub paxos_request_pack : Request → List Tok
paxos_request_pack req =
    pack_array 2
    ∷ (paxos_value_pack req.pr_val
        ++ (pack_raw (length req.pr_data) ∷ pack_raw_body req.pr_data ∷ []))

unfoldable pub paxos_request_unpack : Obj → Option Request
paxos_request_unpack (array (cons a (cons b nil))) = do
  val ← paxos_value_unpack a
  body ← as_raw b
  some (record { pr_val = val; pr_data = body })
paxos_request_unpack _ = none
