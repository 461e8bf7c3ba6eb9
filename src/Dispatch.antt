-- ===== src/Dispatch.antt =====
-- The dispatch of libmotmot/src/paxos.c and the continuations of paxos_continue.h, for one session.
-- `source` is the peer that a message comes from.
use motmot.Base.{
  ℕ, zero, suc, true, false, List, [], ◌∷◌, Option, none, some, ◌==◌, dec32, if◌then◌else◌,
}
use motmot.Core.{
  Paxop, op_prepare, op_promise, op_decree, op_accept, op_commit, op_welcome, op_hello, op_request,
  op_retrieve, op_resend, op_redirect, op_refuse, op_reject, op_retry, op_recommit, op_sync,
  op_last, op_truncate, op_other, Header,
}
use motmot.Session.{
  Acceptor, Callback, continue_welcome, continue_ack_welcome, continue_ack_redirect,
  continue_ack_refuse, continue_ack_reject,
}
use motmot.SessionLocal.{acceptor_find}
use motmot.Msgpack.{Obj}
use motmot.Util.{is_proposer, reset_proposer, write_acceptor, proposer_paxid}
use motmot.Prepare.{proposer_prepare_by, destroy_peer}
use motmot.Learn.{emit_all}
use motmot.Acceptor.{peer_is, acceptor_ack_prepare, acceptor_ack_decree, acceptor_ack_commit}
use motmot.Proposer.{
  proposer_ack_promise, proposer_ack_accept, proposer_decree, proposer_decree_part,
}
use motmot.Request.{
  proposer_ack_request, acceptor_ack_request, paxos_ack_retrieve, paxos_ack_resend,
}
use motmot.Retry.{proposer_ack_retry, acceptor_ack_recommit}
use motmot.Sync.{acceptor_ack_sync, proposer_ack_last, acceptor_ack_truncate}
use motmot.Greet.{do_continue_welcome, do_continue_ack_welcome, paxos_ack_hello}
use motmot.Reconnect.{
  proposer_ack_redirect, acceptor_ack_refuse, proposer_ack_reject, do_continue_ack_redirect,
  do_continue_ack_refuse, do_continue_ack_reject,
}
use motmot.Exec.{
  option_case, M, done, ended, fault, use_after_free, dangling, pure, gets, modify, need, ◌>>=◌,
  ◌>>◌,
}

-- What runs next touches the session, also where `m` has ended and freed it.
unfoldable pub still : {A : Type 0} → M A → M A
still m w = elim (m w) [
  | done a w' ↦ done a w'
  | ended w' ↦ fault use_after_free
  | fault e ↦ fault e
]

-- The first acceptor with a given peer.
unfoldable pub acceptor_of_peer : ℕ → List Acceptor → Option Acceptor
acceptor_of_peer source [] = none
acceptor_of_peer source (acc ∷ l) =
    if peer_is acc.pa_peer source then some acc else acceptor_of_peer source l

unfoldable pub proposer_force_kill : ℕ → M ℕ
unfolding acceptor_of_peer
proposer_force_kill source = do
  alist ← gets (λ s. s.alist)
  option_case (acceptor_of_peer source alist) (pure 1)
      (λ acc. proposer_decree_part acc.pa_paxid true)

-- The case of OP_REFUSE runs on into that of OP_REJECT.
unfoldable pub proposer_dispatch : ℕ → Header → Obj → Paxop → M ℕ
unfolding proposer_force_kill
proposer_dispatch source hdr o op_prepare = proposer_force_kill source
proposer_dispatch source hdr o op_promise = proposer_ack_promise hdr o
proposer_dispatch source hdr o op_decree = proposer_force_kill source
proposer_dispatch source hdr o op_accept = proposer_ack_accept hdr
proposer_dispatch source hdr o op_commit = proposer_force_kill source
proposer_dispatch source hdr o op_request = proposer_ack_request hdr o
proposer_dispatch source hdr o op_retrieve = paxos_ack_retrieve hdr o
proposer_dispatch source hdr o op_resend = paxos_ack_resend hdr o
proposer_dispatch source hdr o op_welcome = proposer_force_kill source
proposer_dispatch source hdr o op_hello = paxos_ack_hello source hdr
proposer_dispatch source hdr o op_redirect = proposer_ack_redirect hdr o
proposer_dispatch source hdr o op_refuse = do
  r ← still (proposer_force_kill source)
  proposer_ack_reject hdr
proposer_dispatch source hdr o op_reject = proposer_ack_reject hdr
proposer_dispatch source hdr o op_retry = proposer_ack_retry hdr
proposer_dispatch source hdr o op_recommit = proposer_force_kill source
proposer_dispatch source hdr o op_sync = proposer_force_kill source
proposer_dispatch source hdr o op_last = proposer_ack_last hdr o
proposer_dispatch source hdr o op_truncate = proposer_force_kill source
proposer_dispatch source hdr o (op_other n) = pure 0

unfoldable pub acceptor_case : ℕ → Header → Obj → Paxop → M ℕ
acceptor_case source hdr o op_prepare = acceptor_ack_prepare source hdr
acceptor_case source hdr o op_promise = pure 0
acceptor_case source hdr o op_decree = acceptor_ack_decree hdr o
acceptor_case source hdr o op_accept = pure 0
acceptor_case source hdr o op_commit = acceptor_ack_commit hdr o
acceptor_case source hdr o op_request = acceptor_ack_request source hdr o
acceptor_case source hdr o op_retrieve = paxos_ack_retrieve hdr o
acceptor_case source hdr o op_resend = paxos_ack_resend hdr o
acceptor_case source hdr o op_welcome = pure 0
acceptor_case source hdr o op_hello = paxos_ack_hello source hdr
acceptor_case source hdr o op_redirect = pure 0
acceptor_case source hdr o op_refuse = acceptor_ack_refuse hdr o
acceptor_case source hdr o op_reject = pure 0
acceptor_case source hdr o op_retry = pure 0
acceptor_case source hdr o op_recommit = acceptor_ack_recommit hdr o
acceptor_case source hdr o op_sync = acceptor_ack_sync hdr
acceptor_case source hdr o op_last = pure 0
acceptor_case source hdr o op_truncate = acceptor_ack_truncate o
acceptor_case source hdr o (op_other n) = pure 0

-- `return 0`, whatever `r` is.
unfoldable pub acceptor_dispatch : ℕ → Header → Obj → Paxop → M ℕ
unfolding acceptor_case
acceptor_dispatch source hdr o op = do _ ← acceptor_case source hdr o op; pure 0

-- The branch of `paxos_dispatch` for a session that was found.
unfoldable pub session_dispatch : ℕ → Header → Obj → M ℕ
unfolding proposer_dispatch acceptor_dispatch
session_dispatch source hdr o = do
  pax ← gets (λ s. s)
  if is_proposer pax
      then proposer_dispatch source hdr o hdr.ph_opcode
      else acceptor_dispatch source hdr o hdr.ph_opcode

unfoldable pub do_continue : Callback → Option ℕ → Acceptor → M ℕ
do_continue continue_welcome chan acc = do_continue_welcome chan acc
do_continue continue_ack_welcome chan acc = do_continue_ack_welcome chan acc
do_continue continue_ack_redirect chan acc = do_continue_ack_redirect chan acc
do_continue (continue_ack_refuse req) chan acc = do_continue_ack_refuse req chan acc
do_continue (continue_ack_reject inum) chan acc = do_continue_ack_reject inum chan acc

abbrev pub nth {ℓ} : {A : Type ℓ} → ℕ → List A → Option A
nth n [] = none
nth zero (x ∷ l) = some x
nth (suc n) (x ∷ l) = nth n l

abbrev pub without {ℓ} : {A : Type ℓ} → ℕ → List A → List A
without n [] = []
without zero (x ∷ l) = l
without (suc n) (x ∷ l) = x ∷ without n l

-- CONNECTINUATE, for the continuation at a place of the clist. What a handler adds to the clist goes
-- to its end, so the place stays good.
unfoldable pub connectinuate : ℕ → Option ℕ → M ℕ
unfolding do_continue still
connectinuate place chan = do
  pax ← gets (λ s. s)
  k ← need dangling (nth place pax.clist)
  r ← still (
      option_case (acceptor_find k.pk_paxid pax.alist) (pure 0)
        (λ acc. do_continue k.pk_cb chan acc))
  modify (λ s. record s { clist = without place s.clist })
  pure r

-- The body of the loop of `paxos_drop_connection`, for a session in which the peer was found.
unfoldable pub lose_acceptor : Acceptor → M ℕ
lose_acceptor acc = do
  emit_all (destroy_peer acc.pa_peer)
  modify (write_acceptor acc.pa_paxid (λ a. record a { pa_peer = none }))
  modify (λ s. record s { live_count = dec32 s.live_count })
  pax ← gets (λ s. s)
  if is_proposer pax then proposer_decree_part acc.pa_paxid false else (do
    p ← proposer_paxid
    if acc.pa_paxid == p
        then (do
          modify reset_proposer
          after ← gets (λ s. s)
          if is_proposer after then proposer_prepare_by proposer_decree true else pure 0)
        else pure 0)

-- The loop then reads `pax->session_le.le_next`.
unfoldable pub drop_connection : ℕ → M ℕ
unfolding lose_acceptor still acceptor_of_peer
drop_connection source = do
  alist ← gets (λ s. s.alist)
  option_case (acceptor_of_peer source alist) (pure 0) (λ acc. still (lose_acceptor acc))
