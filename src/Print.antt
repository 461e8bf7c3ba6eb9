-- ===== src/Print.antt =====
-- The printers of libmotmot/src/paxos_print.c. Each gives what it prints, followed by what is
-- printed after it.
use motmot.Base.{
  ℕ, zero, suc, ◌+◌, ◌-◌, ◌/◌, ◌%◌, Bool, true, false, List, [], ◌∷◌, ◌++◌, ltb, length,
}
use motmot.Base.Text.{Chars, codes}
use motmot.Primitives.{Ppair}
use motmot.Core.{
  Paxop, op_prepare, op_promise, op_decree, op_accept, op_commit, op_welcome, op_hello, op_request,
  op_retrieve, op_resend, op_redirect, op_refuse, op_reject, op_retry, op_recommit, op_sync,
  op_last, op_truncate, op_other, Dkind, dec_null, dec_chat, dec_join, dec_part, dec_kill,
  dec_other, Header, Value,
}
use motmot.Session.{Bytes, Acceptor, Instance, Request}
pub mod Readback

-- printf of a text
abbrev pub printf : Chars → Chars → Chars
printf s after = s ++ after

-- `%u`, with fuel for the digits
unfoldable pub decimal_from : ℕ → ℕ → Chars → Chars
decimal_from zero n after = after
decimal_from (suc fuel) n after = elim (ltb n 10) [
  | true ↦ (48 + n) ∷ after
  | false ↦ decimal_from fuel (n / 10) ((48 + n % 10) ∷ after)
]

-- One round for each unit is more than one for each digit.
unfoldable pub decimal : ℕ → Chars → Chars
unfolding decimal_from
decimal n after = decimal_from (suc n) n after

unfoldable pub paxid_print : ℕ → Chars → Chars → Chars → Chars
unfolding decimal
paxid_print paxid lead trail after = printf lead (decimal paxid (printf trail after))

unfoldable pub ppair_print : Ppair → Chars → Chars → Chars → Chars
unfolding paxid_print
ppair_print pp lead trail after = printf lead (
    paxid_print pp.id (codes "(") (codes ", ")
      (paxid_print pp.gen [] (codes ")") (printf trail after)))

-- The cases of the `switch`; an opcode that is none of them prints nothing.
unfoldable pub op_text : Paxop → Chars
op_text op_prepare = codes "OP_PREPARE "
op_text op_promise = codes "OP_PROMISE "
op_text op_decree = codes "OP_DECREE  "
op_text op_accept = codes "OP_ACCEPT  "
op_text op_commit = codes "OP_COMMIT  "
op_text op_welcome = codes "OP_WELCOME "
op_text op_hello = codes "OP_HELLO   "
op_text op_request = codes "OP_REQUEST "
op_text op_retrieve = codes "OP_RETRIEVE"
op_text op_resend = codes "OP_RESEND  "
op_text op_redirect = codes "OP_REDIRECT"
op_text op_refuse = codes "OP_REFUSE  "
op_text op_reject = codes "OP_REJECT  "
op_text op_retry = codes "OP_RETRY   "
op_text op_recommit = codes "OP_RECOMMIT"
op_text op_sync = codes "OP_SYNC    "
op_text op_last = codes "OP_LAST    "
op_text op_truncate = codes "OP_TRUNCATE"
op_text (op_other n) = []

unfoldable pub paxop_print : Paxop → Chars → Chars → Chars → Chars
unfolding op_text
paxop_print op lead trail after = printf lead (printf (op_text op) (printf trail after))

unfoldable pub dkind_text : Dkind → Chars
dkind_text dec_null = codes "DEC_NULL"
dkind_text dec_chat = codes "DEC_CHAT"
dkind_text dec_join = codes "DEC_JOIN"
dkind_text dec_part = codes "DEC_PART"
dkind_text dec_kill = codes "DEC_KILL"
dkind_text (dec_other n) = []

unfoldable pub dkind_print : Dkind → Chars → Chars → Chars → Chars
unfolding dkind_text
dkind_print dkind lead trail after = printf lead (printf (dkind_text dkind) (printf trail after))

unfoldable pub paxos_header_print : Header → Chars → Chars → Chars → Chars
unfolding paxop_print ppair_print paxid_print
paxos_header_print hdr lead trail after = printf lead (
    paxop_print hdr.ph_opcode [] (codes " ") (
      ppair_print hdr.ph_ballot [] (codes " ")
        (paxid_print hdr.ph_inum [] [] (printf trail after))))

unfoldable pub paxos_value_print : Value → Chars → Chars → Chars → Chars
unfolding dkind_print ppair_print paxid_print
paxos_value_print val lead trail after = printf lead (
    dkind_print val.pv_dkind [] (codes " ") (
      ppair_print val.pv_reqid [] (codes " ")
        (paxid_print val.pv_extra [] [] (printf trail after))))

unfoldable pub spaces : ℕ → Chars
spaces zero = []
spaces (suc n) = 32 ∷ spaces n

-- `%*s`: the size is a least width, and the text ends at the first NUL from the start of the data on.
-- Where that is, in the data or beyond, is the parameter.
module _ (string_at : Bytes → Chars) where
  unfoldable pub print_data : Bytes → Chars → Chars
  unfolding spaces
  print_data data' after =
      spaces (length data' - length (string_at data')) ++ (string_at data' ++ after)

  unfoldable pub paxos_acceptor_print : Acceptor → Chars → Chars → Chars → Chars
  unfolding paxid_print print_data
  paxos_acceptor_print acc lead trail after =
      printf lead
        (paxid_print acc.pa_paxid [] (codes ": ") (print_data acc.pa_desc (printf trail after)))

  unfoldable pub paxos_request_print : Request → Chars → Chars → Chars → Chars
  unfolding paxos_value_print print_data
  paxos_request_print req lead trail after =
      paxos_value_print req.pr_val lead (codes "\n") (print_data req.pr_data (printf trail after))

-- `%d` of a bool
abbrev flag : Bool → Chars
flag true = codes "1"
flag false = codes "0"

unfoldable pub paxos_instance_print : Instance → Chars → Chars → Chars → Chars
unfolding paxos_header_print paxos_value_print decimal
paxos_instance_print inst lead trail after = paxos_header_print inst.pi_hdr lead (codes "\n") (
    paxos_value_print inst.pi_val lead (codes "\n") (
      codes "["
      ++ (flag inst.pi_committed
          ++ (codes "/"
              ++ (flag inst.pi_cached
                  ++ (codes "/"
                      ++ (flag inst.pi_learned
                          ++ (codes "] votes: "
                              ++ decimal inst.pi_votes (
                                  codes " / rejects: "
                                  ++ decimal inst.pi_rejects (printf trail after))))))))))
