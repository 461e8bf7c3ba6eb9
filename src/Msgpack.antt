-- ===== src/Msgpack.antt =====
-- libmotmot/src/paxos_msgpack.h and paxos_msgpack.c, and turquoise/msgpackutil.h, over the msgpack
-- library. A `struct paxos_yak`
-- is the list of the calls `msgpack_pack_*` made on its packer; a `msgpack_object` is a tree.
use motmot.Base.{ℕ, suc, Bool, List, [], ◌∷◌, ◌++◌, Option, none, some, length, true, false}

-- A signed 64-bit integer, over the native numbers.
pub data ℤ : Type 0 where
  pos negsuc : ℕ → ℤ

pub data Tok : Type 0 where
  pack_int : ℤ → Tok
  pack_array pack_uint pack_raw : ℕ → Tok
  pack_raw_body : List ℕ → Tok
  pack_true pack_false : Tok

mutual
  pub data Obj : Type 0 where
    positive_integer : ℕ → Obj
    negative_integer : ℤ → Obj
    raw : List ℕ → Obj
    boolean : Bool → Obj
    array : Objs → Obj
    other_type : Obj

  pub data Objs : Type 0 where
    nil : Objs
    cons : Obj → Objs → Objs

-- The `via.array.size` of an array.
abbrev pub size : Objs → ℕ
size nil = 0
size (cons o os) = suc (size os)

-- `assert(o->type == MSGPACK_OBJECT_POSITIVE_INTEGER)`, and then `o->via.u64`; `none` is a failed
-- assertion.
abbrev pub as_uint : Obj → Option ℕ
as_uint (positive_integer n) = some n
as_uint _ = none

abbrev pub as_raw : Obj → Option (List ℕ)
as_raw (raw bs) = some bs
as_raw _ = none

abbrev pub as_boolean : Obj → Option Bool
as_boolean (boolean b) = some b
as_boolean _ = none

abbrev pub as_array : Obj → Option Objs
as_array (array os) = some os
as_array _ = none

abbrev bool_token : Bool → Tok
bool_token true = pack_true
bool_token false = pack_false

-- The msgpack format: the calls by which a packer emits an object. An array is a header with its
-- size, followed by its elements.
unfoldable mutual
  pub tokens : Obj → List Tok
  tokens (positive_integer n) = pack_uint n ∷ []
  tokens (negative_integer z) = pack_int z ∷ []
  tokens (raw bs) = pack_raw (length bs) ∷ pack_raw_body bs ∷ []
  tokens (boolean b) = bool_token b ∷ []
  tokens (array os) = pack_array (size os) ∷ tokens_all os
  tokens other_type = []

  pub tokens_all : Objs → List Tok
  tokens_all nil = []
  tokens_all (cons o os) = tokens o ++ tokens_all os

-- paxos_payload_init and paxos_payload_begin_array
unfoldable pub paxos_payload_begin_array : ℕ → List Tok
paxos_payload_begin_array n = pack_array n ∷ []
