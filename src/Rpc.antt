-- ===== src/Rpc.antt =====
-- turquoise/rpc.c: the calls of a motmot server, and the handling of its responses. The buddies are
-- libpurple's; what the code asks of libpurple is the section's parameters. `purple_ssl_write` sends
-- the tokens that a call returns.
use motmot.Base.{
  ℕ, zero, suc, ◌+◌, Bool, true, false, List, [], ◌∷◌, ◌++◌, Option, none, some, ◌==◌,
  if◌then◌else◌, length, to_u32,
}
use motmot.SessionLocal.{get_at, set_at}
use motmot.Msgpack.{
  ℤ, pos, negsuc, Tok, pack_array, pack_uint, pack_raw, pack_raw_body, Obj, Objs, nil, cons,
  positive_integer, negative_integer, raw, array, size, as_array, as_uint, as_raw,
}
use motmot.Codec.{◌>>=◌}
pub mod Responses
pub mod Calls

-- The bytes of a string.
abbrev pub Chars : Type 0
Chars = List ℕ

-- rpcop_t
abbrev pub op_authenticate_user : ℕ
op_authenticate_user = 1

abbrev pub op_register_friend : ℕ
op_register_friend = 2

abbrev pub op_unregister_friend : ℕ
op_unregister_friend = 3

abbrev pub op_register_status : ℕ
op_register_status = 5

abbrev pub op_accept_friend : ℕ
op_accept_friend = 6

abbrev pub op_get_all_statuses : ℕ
op_get_all_statuses = 7

abbrev pub op_get_user_status : ℕ
op_get_user_status = 8

abbrev pub op_all_status_response : ℕ
op_all_status_response = 65

abbrev pub op_get_status_resp : ℕ
op_get_status_resp = 68

-- The pointer `ip`.
pub data Pointer : Type 0 where
  null freed : Pointer
  live : Chars → Pointer

-- `struct pm_buddy`, with a number for the PurpleBuddy whose `proto_data` it is.
pub record Buddy : Type 0 where
  pub buddy_id : ℕ
  pub ip : Pointer
  pub port : ℕ

-- The buddies that libpurple lists, and those that `purple_buddy_new` has made, which are on no list.
pub record Roster : Type 0 where
  pub listed : List Buddy
  pub unlisted : List Buddy

pub data RpcFault : Type 0 where
  double_free null_proto_data : RpcFault

pub data RpcResult : Type 0 where
  returned : ℕ → Roster → RpcResult
  crashed : RpcFault → RpcResult

abbrev pub id_of : Buddy → ℕ
id_of b = b.buddy_id

-- swapout
unfoldable pub swapout : Pointer → Chars → Option Pointer
swapout null new = some (live new)
swapout (live old) new = some (live new)
swapout freed new = none

-- The fields of a status. `beyond` is what is read in the place after an array's last.
pub record Fields : Type 0 where
  pub name : Chars
  pub status : ℕ
  pub address : Chars
  pub port_read : ℕ

-- The four typechecks, in their order.
unfoldable pub read_fields : Obj → Obj → Obj → Obj → Option Fields
read_fields a b c d = do
  n ← as_raw a
  s ← as_uint b
  x ← as_raw c
  p ← as_uint d
  some (record { name = n; status = s; address = x; port_read = p })

abbrev pub at_index : ℕ → Obj → Objs → Obj
at_index n beyond nil = beyond
at_index zero beyond (cons o os) = o
at_index (suc n) beyond (cons o os) = at_index n beyond os

module _ (purple_find_buddy : Chars → Option ℕ) (beyond : Objs → Obj) (via_u64 : Chars → ℕ) where
  -- The new address and port of a buddy, once `swapout` has freed the old address.
  unfoldable pub rewrite_buddy : Roster → Buddy → Option Pointer → ℕ → RpcResult
  rewrite_buddy r b none port = crashed double_free
  rewrite_buddy r b (some p) port = returned 0 (record r {
    listed = set_at id_of b.buddy_id (λ x. record x { ip = p; port = to_u32 port }) r.listed;
  })

  -- `purple_buddy_new` puts its buddy on no list.
  unfoldable pub store_status : Roster → Fields → RpcResult
  unfolding rewrite_buddy swapout
  store_status r f = elim (purple_find_buddy f.name) [
    | none ↦ returned 0 (record r {
      unlisted =
          r.unlisted
          ++ record { buddy_id = length r.unlisted; ip = live f.address; port = to_u32 f.port_read }
            ∷ [];
    })
    | some id ↦ (elim (get_at id_of id r.listed) [
      | none ↦ crashed null_proto_data
      | some b ↦ rewrite_buddy r b (swapout b.ip f.address) f.port_read
    ])
  ]

  -- The fields of an entry: an array that is asserted to have three elements, of which four are read.
  unfoldable pub entry_fields : Obj → Option Fields
  unfolding read_fields
  entry_fields o = elim (as_array o) [
    | none ↦ none
    | some os ↦
        if size os == 3
        then read_fields (at_index 0 (beyond os) os) (at_index 1 (beyond os) os)
            (at_index 2 (beyond os) os) (at_index 3 (beyond os) os)
        else none
  ]

  abbrev pub and_then : RpcResult → (Roster → RpcResult) → RpcResult
  and_then (returned code r) k = k r
  and_then (crashed e) k = crashed e

  -- The loop over the entries.
  unfoldable pub store_all : Roster → Objs → RpcResult
  unfolding entry_fields store_status
  store_all r nil = returned 0 r
  store_all r (cons o os) = elim (entry_fields o) [
    | none ↦ returned 1 r
    | some f ↦ and_then (store_status r f) (λ r'. store_all r' os)
  ]

  unfoldable pub rpc_all_statuses : Roster → Obj → RpcResult
  unfolding store_all
  rpc_all_statuses r o = elim (as_array o) [ none ↦ returned 1 r | some os ↦ store_all r os ]

  -- The address that a status response brings: the old one is freed, and `swapout` frees it again.
  unfoldable pub free_old : Pointer → Pointer
  free_old null = null
  free_old (live s) = freed
  free_old freed = freed

  -- The port is read as the integer of the third element, a string.
  unfoldable pub store_response : Roster → Fields → RpcResult
  unfolding rewrite_buddy swapout free_old
  store_response r f = elim (purple_find_buddy f.name) [
    | none ↦ returned 1 r
    | some id ↦ (elim (get_at id_of id r.listed) [
      | none ↦ crashed null_proto_data
      | some b ↦ rewrite_buddy r b (swapout (free_old b.ip) f.address) (via_u64 f.address)
    ])
  ]

  unfoldable pub rpc_get_status_resp : Roster → Obj → RpcResult
  unfolding read_fields store_response
  rpc_get_status_resp r o = elim (as_array o) [
    | none ↦ returned 1 r
    | some os ↦
        if size os == 4
        then (elim (read_fields (at_index 0 (beyond os) os) (at_index 1 (beyond os) os)
            (at_index 2 (beyond os) os) (at_index 3 (beyond os) os)) [
              | none ↦ returned 1 r
              | some f ↦ store_response r f
            ])
        else returned 1 r
  ]

  -- The `switch` on the opcode, whose type has been checked to be that of negative integers.
  unfoldable pub rpc_switch : Roster → ℤ → Obj → RpcResult
  unfolding rpc_all_statuses rpc_get_status_resp
  rpc_switch r (negsuc n) o = returned 1 r
  rpc_switch r (pos n) o =
      if n == op_all_status_response
      then rpc_all_statuses r o
      else if n == op_get_status_resp
      then rpc_get_status_resp r o
      else returned 1 r

  unfoldable pub rpc_dispatch : Roster → Obj → RpcResult
  unfolding rpc_switch
  rpc_dispatch r (array (cons (negative_integer z) os)) =
      rpc_switch r z (at_index 0 (beyond (cons (negative_integer z) os)) os)
  rpc_dispatch r _ = returned 1 r

-- rpc_op and yak_cstring: an array of the opcode and the arguments.
unfoldable pub rpc_op : ℕ → ℕ → List Tok
rpc_op op nargs = pack_array (1 + nargs) ∷ pack_uint op ∷ []

unfoldable pub yak_cstring : Chars → List Tok
yak_cstring s = pack_raw (length s) ∷ pack_raw_body s ∷ []

unfoldable pub rpc_login : Chars → Chars → List Tok
unfolding rpc_op yak_cstring
rpc_login username password =
    rpc_op op_authenticate_user 2 ++ (yak_cstring username ++ yak_cstring password)

unfoldable pub rpc_get_all_statuses : List Tok
unfolding rpc_op
rpc_get_all_statuses = rpc_op op_get_all_statuses 0

unfoldable pub rpc_register_friend : Chars → List Tok
unfolding rpc_op yak_cstring
rpc_register_friend name = rpc_op op_register_friend 1 ++ yak_cstring name

unfoldable pub rpc_unregister_friend : Chars → List Tok
unfolding rpc_op yak_cstring
rpc_unregister_friend name = rpc_op op_unregister_friend 1 ++ yak_cstring name

unfoldable pub rpc_get_status : Chars → List Tok
unfolding rpc_op yak_cstring
rpc_get_status name = rpc_op op_get_user_status 1 ++ yak_cstring name

unfoldable pub rpc_accept_friend : Chars → List Tok
unfolding rpc_op yak_cstring
rpc_accept_friend name = rpc_op op_accept_friend 1 ++ yak_cstring name

-- `yak_pack(&yak, int, status)`, for a status that is not negative.
unfoldable pub rpc_register_status : ℕ → List Tok
unfolding rpc_op
rpc_register_status status = rpc_op op_register_status 1 ++ pack_uint status ∷ []
