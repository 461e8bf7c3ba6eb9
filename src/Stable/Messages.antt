-- ===== src/Stable/Messages.antt =====
-- The handlers of requests, hellos, redirects, refusals, rejects and syncs, under the relation of the
-- parent module.
use motmot.Base.{ℕ, ◌≡◌, refl, Bool, Option, none, some, arith}
use motmot.Core.{Header, Dkind}
use motmot.Session.{Bytes, Acceptor, Instance, Request, Session}
use motmot.Msgpack.{Obj}
use motmot.Util.{write_acceptor}
use motmot.Prepare
use motmot.Proposer
use motmot.Request.{
  proposer_decree_request, cache_request, paxos_request, proposer_ack_request, acceptor_ack_request,
  paxos_ack_retrieve, store_resent, paxos_ack_resend,
}
use motmot.Retry.{proposer_ack_retry}
use motmot.Sync.{begin_sync, proposer_sync, acceptor_ack_sync}
use motmot.Greet.{attach_peer, end_prepare, paxos_hello, reattach, known_hello, paxos_ack_hello}
use motmot.Reconnect.{
  count_redirect, proposer_ack_redirect, acceptor_ack_refuse, count_reject, proposer_ack_reject,
}
use motmot.Objection.{acceptor_refuse}
use motmot.Exec.{modify}
use motmot.Exec.Moves.{Moves, Moves-bind}
use motmot.Stable.{Stays, Stays-modify, Stays-IsPath}
use motmot.Stable.Sends.{ask_rules, Stays-err_ret, Stays-prepare_by, Stays-continuation_new}
use motmot.Stable.Learning.{Stays-commit, Stays-flag, Stays-emit_all}
use motmot.Stable.Decrees.{Stays-decree, Stays-decree_part}

ruleset message_rules =
    (ask_rules, Stays-err_ret, Stays-decree, Stays-decree_part, Stays-continuation_new)

Stays-decree_request : (req : Request) → Moves Stays (proposer_decree_request req)
unfolding proposer_decree_request
Stays-decree_request req = search message_rules depth 12

Stays-cache : (req : Request) → Moves Stays (modify (cache_request req))
unfolding cache_request
Stays-cache req = search message_rules

pub Stays-request : (k : Dkind) (msg : Bytes) → Moves Stays (paxos_request k msg)
unfolding paxos_request
Stays-request k msg = search (message_rules, Stays-cache, Stays-decree_request) depth 16

pub Stays-proposer_ack_request : (hdr : Header) (o : Obj) → Moves Stays (proposer_ack_request hdr o)
unfolding proposer_ack_request
Stays-proposer_ack_request hdr o =
    search (message_rules, Stays-cache, Stays-decree_request) depth 16

Stays-refuse : (s : ℕ) (hdr : Header) (r : Request) → Moves Stays (acceptor_refuse s hdr r)
unfolding acceptor_refuse
Stays-refuse s hdr r = search message_rules depth 8

pub Stays-acceptor_ack_request :
    (s : ℕ) (hdr : Header) (o : Obj) → Moves Stays (acceptor_ack_request s hdr o)
unfolding acceptor_ack_request
Stays-acceptor_ack_request s hdr o = search (message_rules, Stays-cache, Stays-refuse) depth 12

pub Stays-ack_retrieve : (hdr : Header) (o : Obj) → Moves Stays (paxos_ack_retrieve hdr o)
unfolding paxos_ack_retrieve
Stays-ack_retrieve hdr o = search message_rules depth 12

Stays-store_resent : (r : Option Request) (o : Obj) → Moves Stays (store_resent r o)
unfolding store_resent
Stays-store_resent none o = search (message_rules, Stays-cache)
Stays-store_resent (some r) o = search message_rules

pub Stays-ack_resend : (hdr : Header) (o : Obj) → Moves Stays (paxos_ack_resend hdr o)
unfolding paxos_ack_resend
Stays-ack_resend hdr o = search (message_rules, Stays-store_resent, Stays-commit) depth 12

pub Stays-ack_retry : (hdr : Header) → Moves Stays (proposer_ack_retry hdr)
unfolding proposer_ack_retry
Stays-ack_retry hdr = search message_rules depth 12

Stays-begin_sync : Moves Stays begin_sync
unfolding begin_sync
Stays-begin_sync = search message_rules depth 8

pub Stays-sync : Moves Stays proposer_sync
unfolding proposer_sync
Stays-sync = search (message_rules, Stays-begin_sync) depth 14

pub Stays-ack_sync : (hdr : Header) → Moves Stays (acceptor_ack_sync hdr)
unfolding acceptor_ack_sync
Stays-ack_sync hdr = search message_rules depth 12

attach_keeps : (p : ℕ) (o : Option ℕ) (s : Session) → (attach_peer p o s).ilist ≡ s.ilist
unfolding attach_peer write_acceptor
attach_keeps p none s = refl
attach_keeps p (some q) s = refl

pub Stays-attach : (p : ℕ) (o : Option ℕ) → Moves Stays (modify (attach_peer p o))
Stays-attach p o = Stays-modify (attach_peer p o) (attach_keeps p o)

pub Stays-write_acceptor :
    (p : ℕ) (f : Acceptor → Acceptor) → Moves Stays (modify (write_acceptor p f))
unfolding write_acceptor
Stays-write_acceptor p f = Stays-modify (write_acceptor p f) (λ s. refl)

end_prepare_keeps : (s : Session) → (end_prepare s).ilist ≡ s.ilist
unfolding end_prepare
end_prepare_keeps s = ground arith

Stays-end_prepare : Moves Stays (modify end_prepare)
Stays-end_prepare = Stays-modify end_prepare end_prepare_keeps

Stays-reattach : (source paxid : ℕ) → Moves Stays (reattach source paxid)
unfolding reattach
Stays-reattach source paxid = search (message_rules, Stays-attach, Stays-end_prepare) depth 14

pub Stays-hello : (acc : Acceptor) → Moves Stays (paxos_hello acc)
unfolding paxos_hello
Stays-hello acc = search message_rules

Stays-known_hello : (s : ℕ) (hdr : Header) (acc : Acceptor) → Moves Stays (known_hello s hdr acc)
unfolding known_hello
Stays-known_hello s hdr acc =
    search (message_rules, Stays-reattach, Stays-emit_all, Stays-write_acceptor) depth 14

pub Stays-ack_hello : (s : ℕ) (hdr : Header) → Moves Stays (paxos_ack_hello s hdr)
unfolding paxos_ack_hello
Stays-ack_hello s hdr = search (message_rules, Stays-known_hello) depth 14

pub Stays-reprepare :
    (old : Bool) → Moves Stays (Prepare.proposer_prepare_by Proposer.proposer_decree old)
Stays-reprepare old = Stays-prepare_by Proposer.proposer_decree Stays-decree old

Stays-count_redirect : (hdr : Header) → Moves Stays (count_redirect hdr)
unfolding count_redirect
Stays-count_redirect hdr = search (message_rules, Stays-reprepare) depth 16

pub Stays-ack_redirect : (hdr : Header) (o : Obj) → Moves Stays (proposer_ack_redirect hdr o)
unfolding proposer_ack_redirect
Stays-ack_redirect hdr o = search (message_rules, Stays-count_redirect) depth 14

pub Stays-ack_refuse : (hdr : Header) (o : Obj) → Moves Stays (acceptor_ack_refuse hdr o)
unfolding acceptor_ack_refuse
Stays-ack_refuse hdr o = search message_rules depth 20

Stays-count_reject : (s : Session) (i : Instance) → Moves Stays (count_reject s i)
unfolding count_reject
Stays-count_reject s i = search message_rules depth 12

pub Stays-ack_reject : (hdr : Header) → Moves Stays (proposer_ack_reject hdr)
unfolding proposer_ack_reject
Stays-ack_reject hdr =
    let w = λ (n : ℕ).
      Stays-flag n (λ i. record i { pi_rejects = _ }) (λ x. refl)
        (λ x c. record { committed = c; value = refl }) in
    Moves-bind Stays-IsPath _ _ (search message_rules) λ pax.
      Moves-bind Stays-IsPath _ _ (search message_rules) λ _.
        Moves-bind Stays-IsPath _ _ (search message_rules) λ inst.
          Moves-bind Stays-IsPath _ _ (w inst.pi_hdr.ph_inum)
            λ _. search (message_rules, Stays-count_reject) depth 10
