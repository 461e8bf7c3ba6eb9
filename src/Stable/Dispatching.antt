-- ===== src/Stable/Dispatching.antt =====
-- The dispatch of messages (paxos.c), under the relation of the parent module.
use motmot.Base.{ℕ, ◌≡◌, Bool, true, false, arith}
use motmot.Core.{
  Paxop, op_prepare, op_promise, op_decree, op_accept, op_commit, op_welcome, op_hello, op_request,
  op_retrieve, op_resend, op_redirect, op_refuse, op_reject, op_retry, op_recommit, op_sync,
  op_last, op_truncate, op_other, Header,
}
use motmot.Msgpack.{Obj}
use motmot.Util.{is_proposer}
use motmot.Dispatch.{
  still, proposer_force_kill, proposer_dispatch, acceptor_case, acceptor_dispatch, session_dispatch,
}
use motmot.Exec.{M, World, Outcome, done, ended, fault, use_after_free}
use motmot.Exec.Moves.{Moves, Holds, Moves-bind, Moves-if}
use motmot.Stable.{Stays, Stays-IsPath}
use motmot.Stable.Sends.{ask_rules}
use motmot.Stable.Decrees.{
  Stays-decree_part, Stays-ack_accept, Stays-ack_prepare, Stays-ack_decree, Stays-ack_commit,
  Stays-ack_recommit,
}
use motmot.Stable.Promises.{Stays-ack_promise}
use motmot.Stable.Messages.{
  Stays-proposer_ack_request, Stays-acceptor_ack_request, Stays-ack_retrieve, Stays-ack_resend,
  Stays-ack_retry, Stays-ack_sync, Stays-ack_hello, Stays-ack_redirect, Stays-ack_refuse,
  Stays-ack_reject,
}

-- What runs next faults where the session has ended, and faults keep anything.
passed_on :
    {A : Type 0} (w : World) (r : Outcome A)
    → Holds (Stays w) r
    → Holds
        (Stays w)
        (elim r [ done a w' ↦ done a w' | ended w' ↦ fault use_after_free | fault e ↦ fault e ])
passed_on w (done a w') h = h
passed_on w (ended w') h = tt
passed_on w (fault e) h = tt

pub Stays-still : {A : Type 0} (m : M A) → Moves Stays m → Moves Stays (still m)
unfolding still
Stays-still m h = record { run = λ w. passed_on w (m w) (h.run w) }

pub Stays-force_kill : (source : ℕ) → Moves Stays (proposer_force_kill source)
unfolding proposer_force_kill
Stays-force_kill source = search (ask_rules, Stays-decree_part) depth 8

-- The two messages whose handlers cut the ilist.
abbrev pub truncates : Paxop → Bool
truncates op_last = true
truncates op_truncate = true
truncates _ = false

pub Stays-proposer_dispatch :
    (source : ℕ) (hdr : Header) (o : Obj) (op : Paxop)
    → truncates op ≡ false
    → Moves Stays (proposer_dispatch source hdr o op)
unfolding proposer_dispatch
Stays-proposer_dispatch source hdr o op_prepare h = Stays-force_kill source
Stays-proposer_dispatch source hdr o op_promise h = Stays-ack_promise hdr o
Stays-proposer_dispatch source hdr o op_decree h = Stays-force_kill source
Stays-proposer_dispatch source hdr o op_accept h = Stays-ack_accept hdr
Stays-proposer_dispatch source hdr o op_commit h = Stays-force_kill source
Stays-proposer_dispatch source hdr o op_request h = Stays-proposer_ack_request hdr o
Stays-proposer_dispatch source hdr o op_retrieve h = Stays-ack_retrieve hdr o
Stays-proposer_dispatch source hdr o op_resend h = Stays-ack_resend hdr o
Stays-proposer_dispatch source hdr o op_welcome h = Stays-force_kill source
Stays-proposer_dispatch source hdr o op_hello h = Stays-ack_hello source hdr
Stays-proposer_dispatch source hdr o op_redirect h = Stays-ack_redirect hdr o
Stays-proposer_dispatch source hdr o op_refuse h =
    Moves-bind Stays-IsPath _ _ (Stays-still _ (Stays-force_kill source))
      (λ _. Stays-ack_reject hdr)
Stays-proposer_dispatch source hdr o op_reject h = Stays-ack_reject hdr
Stays-proposer_dispatch source hdr o op_retry h = Stays-ack_retry hdr
Stays-proposer_dispatch source hdr o op_recommit h = Stays-force_kill source
Stays-proposer_dispatch source hdr o op_sync h = Stays-force_kill source
Stays-proposer_dispatch source hdr o op_last h = ground arith
Stays-proposer_dispatch source hdr o op_truncate h = ground arith
Stays-proposer_dispatch source hdr o (op_other n) h = search ask_rules

pub Stays-acceptor_case :
    (source : ℕ) (hdr : Header) (o : Obj) (op : Paxop)
    → truncates op ≡ false
    → Moves Stays (acceptor_case source hdr o op)
unfolding acceptor_case
Stays-acceptor_case source hdr o op_prepare h = Stays-ack_prepare source hdr
Stays-acceptor_case source hdr o op_promise h = search ask_rules
Stays-acceptor_case source hdr o op_decree h = Stays-ack_decree hdr o
Stays-acceptor_case source hdr o op_accept h = search ask_rules
Stays-acceptor_case source hdr o op_commit h = Stays-ack_commit hdr o
Stays-acceptor_case source hdr o op_request h = Stays-acceptor_ack_request source hdr o
Stays-acceptor_case source hdr o op_retrieve h = Stays-ack_retrieve hdr o
Stays-acceptor_case source hdr o op_resend h = Stays-ack_resend hdr o
Stays-acceptor_case source hdr o op_welcome h = search ask_rules
Stays-acceptor_case source hdr o op_hello h = Stays-ack_hello source hdr
Stays-acceptor_case source hdr o op_redirect h = search ask_rules
Stays-acceptor_case source hdr o op_refuse h = Stays-ack_refuse hdr o
Stays-acceptor_case source hdr o op_reject h = search ask_rules
Stays-acceptor_case source hdr o op_retry h = search ask_rules
Stays-acceptor_case source hdr o op_recommit h = Stays-ack_recommit hdr o
Stays-acceptor_case source hdr o op_sync h = Stays-ack_sync hdr
Stays-acceptor_case source hdr o op_last h = search ask_rules
Stays-acceptor_case source hdr o op_truncate h = ground arith
Stays-acceptor_case source hdr o (op_other n) h = search ask_rules

Stays-acceptor_dispatch :
    (source : ℕ) (hdr : Header) (o : Obj) (op : Paxop)
    → truncates op ≡ false
    → Moves Stays (acceptor_dispatch source hdr o op)
unfolding acceptor_dispatch
Stays-acceptor_dispatch source hdr o op h =
    search (ask_rules, Stays-acceptor_case source hdr o op h)

pub Stays-session_dispatch :
    (source : ℕ) (hdr : Header) (o : Obj)
    → truncates hdr.ph_opcode ≡ false
    → Moves Stays (session_dispatch source hdr o)
unfolding session_dispatch
Stays-session_dispatch source hdr o h = Moves-bind Stays-IsPath _ _ (search ask_rules) λ pax.
    Moves-if Stays-IsPath (is_proposer pax) _ _
      (λ _. Stays-proposer_dispatch source hdr o hdr.ph_opcode h)
      (λ _. Stays-acceptor_dispatch source hdr o hdr.ph_opcode h)
