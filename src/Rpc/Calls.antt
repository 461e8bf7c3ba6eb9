-- ===== src/Rpc/Calls.antt =====
-- The calls of turquoise/rpc.c on the wire.
use motmot.Base.{ℕ, ◌≡◌, refl, List}
use motmot.Msgpack.{Tok, Objs, nil, cons, positive_integer, raw, array, tokens, tokens_all}
use motmot.Rpc.{
  Chars, rpc_op, yak_cstring, rpc_login, rpc_get_all_statuses, rpc_register_friend,
  rpc_unregister_friend, rpc_get_status, rpc_accept_friend, rpc_register_status,
}

-- What a call asks of the server.
pub data Call : Type 0 where
  login : Chars → Chars → Call
  register_friend unregister_friend get_status accept_friend : Chars → Call
  register_status : ℕ → Call
  get_all_statuses : Call

-- What the functions of rpc.c write.
abbrev pub written : Call → List Tok
written (login u p) = rpc_login u p
written (register_friend n) = rpc_register_friend n
written (unregister_friend n) = rpc_unregister_friend n
written (get_status n) = rpc_get_status n
written (accept_friend n) = rpc_accept_friend n
written (register_status s) = rpc_register_status s
written get_all_statuses = rpc_get_all_statuses

-- The protocol: an opcode, and the arguments.
abbrev pub opcode : Call → ℕ
opcode (login u p) = 1
opcode (register_friend n) = 2
opcode (unregister_friend n) = 3
opcode (register_status s) = 5
opcode (accept_friend n) = 6
opcode get_all_statuses = 7
opcode (get_status n) = 8

abbrev pub arguments : Call → Objs
arguments (login u p) = cons (raw u) (cons (raw p) nil)
arguments (register_friend n) = cons (raw n) nil
arguments (unregister_friend n) = cons (raw n) nil
arguments (get_status n) = cons (raw n) nil
arguments (accept_friend n) = cons (raw n) nil
arguments (register_status s) = cons (positive_integer s) nil
arguments get_all_statuses = nil

-- Each call writes the msgpack form of one array, of its opcode and its arguments.
pub written-tokens :
    (c : Call) → written c ≡ tokens (array (cons (positive_integer (opcode c)) (arguments c)))
unfolding rpc_op yak_cstring rpc_login rpc_get_all_statuses rpc_register_friend
    rpc_unregister_friend rpc_get_status rpc_accept_friend rpc_register_status tokens tokens_all
written-tokens (login u p) = refl
written-tokens (register_friend n) = refl
written-tokens (unregister_friend n) = refl
written-tokens (get_status n) = refl
written-tokens (accept_friend n) = refl
written-tokens (register_status s) = refl
written-tokens get_all_statuses = refl
