-- ===== src/Stable/Sends.antt =====
-- The functions that send, ask or prepare, under the relation of the parent module.
use motmot.Base.{ℕ, Bool, List, [], ◌∷◌, Option, none, some}
use motmot.Session.{Acceptor, Instance, Callback}
use motmot.Msgpack.{Tok}
use motmot.Util.{
  err_ret, err_accum, paxos_peer_send, paxos_send, paxos_send_to_proposer, broadcast_to,
  paxos_broadcast, paxos_broadcast_instance, proposer_paxid, deref_acceptor, deref_instance,
  proposer_decree_part_by,
}
use motmot.Prepare.{paxos_end, part_dropped, start_prepare, proposer_prepare_by, proposer_prepare}
use motmot.Ask.{retrieve_from, paxos_retrieve, acceptor_retry, continuation_new, proposer_welcome}
use motmot.Exec.{M}
use motmot.Exec.Moves.{Moves}
use motmot.Stable.{Stays, stays_rules}

pub Stays-err_ret : (m k : M ℕ) → Moves Stays m → Moves Stays k → Moves Stays (err_ret m k)
unfolding err_ret
Stays-err_ret m k hm hk = search stays_rules

pub Stays-err_accum : (r : ℕ) (m : M ℕ) → Moves Stays m → Moves Stays (err_accum r m)
unfolding err_accum
Stays-err_accum r m hm = search stays_rules

pub Stays-peer_send : (p : Option ℕ) (py : List Tok) → Moves Stays (paxos_peer_send p py)
unfolding paxos_peer_send
Stays-peer_send none py = search stays_rules
Stays-peer_send (some p) py = search stays_rules

pub Stays-send : (acc : Acceptor) (py : List Tok) → Moves Stays (paxos_send acc py)
unfolding paxos_send
Stays-send acc py = Stays-peer_send acc.pa_peer py

pub Stays-proposer_paxid : Moves Stays proposer_paxid
unfolding proposer_paxid
Stays-proposer_paxid = search stays_rules

pub Stays-deref_acceptor : (p : ℕ) → Moves Stays (deref_acceptor p)
unfolding deref_acceptor
Stays-deref_acceptor p = search stays_rules

pub Stays-deref_instance : (p : ℕ) → Moves Stays (deref_instance p)
unfolding deref_instance
Stays-deref_instance p = search stays_rules

pub ruleset send_rules = (
  stays_rules, Stays-err_ret, Stays-err_accum, Stays-send, Stays-peer_send, Stays-proposer_paxid,
  Stays-deref_acceptor,
)

pub Stays-send_to_proposer : (py : List Tok) → Moves Stays (paxos_send_to_proposer py)
unfolding paxos_send_to_proposer
Stays-send_to_proposer py = search send_rules

Stays-broadcast_to : (py : List Tok) (r : ℕ) (l : List Acceptor) → Moves Stays (broadcast_to py r l)
unfolding broadcast_to
Stays-broadcast_to py r [] = search send_rules
Stays-broadcast_to py r (acc ∷ l) =
    let ih = λ (n : ℕ). Stays-broadcast_to py n l in search (send_rules, ih)

pub Stays-broadcast : (py : List Tok) → Moves Stays (paxos_broadcast py)
unfolding paxos_broadcast
Stays-broadcast py = search (send_rules, Stays-broadcast_to)

pub Stays-broadcast_instance : (i : Instance) → Moves Stays (paxos_broadcast_instance i)
unfolding paxos_broadcast_instance
Stays-broadcast_instance i = search Stays-broadcast

pub ruleset ask_rules =
    (send_rules, Stays-send_to_proposer, Stays-broadcast, Stays-broadcast_instance)

pub Stays-decree_part_by :
    (decree : Instance → M ℕ)
    → ((i : Instance) → Moves Stays (decree i))
    → (target : ℕ) (force : Bool) → Moves Stays (proposer_decree_part_by decree target force)
unfolding proposer_decree_part_by
Stays-decree_part_by decree h target force = search ask_rules depth 12

pub Stays-end : {A : Type 0} → Moves Stays (paxos_end {A = A})
unfolding paxos_end
Stays-end = record { run = λ w. tt }

module _ (decree : Instance → M ℕ) (h : (i : Instance) → Moves Stays (decree i)) where
  Stays-part_dropped : (self r : ℕ) (l : List Acceptor) → Moves Stays (part_dropped decree self r l)
  unfolding part_dropped
  Stays-part_dropped self r [] = search ask_rules
  Stays-part_dropped self r (acc ∷ l) =
      let ih = λ (n : ℕ). Stays-part_dropped self n l in
      search (ask_rules, ih, Stays-decree_part_by decree h)

  Stays-start_prepare : (old : Bool) → Moves Stays (start_prepare decree old)
  unfolding start_prepare
  Stays-start_prepare old = search (ask_rules, Stays-part_dropped) depth 12

  pub Stays-prepare_by : (old : Bool) → Moves Stays (proposer_prepare_by decree old)
  unfolding proposer_prepare_by
  Stays-prepare_by old = search (ask_rules, Stays-start_prepare, Stays-end)

pub Stays-prepare : (old : Bool) → Moves Stays (proposer_prepare old)
unfolding proposer_prepare
Stays-prepare old = Stays-prepare_by _ (λ i. search stays_rules) old

Stays-retrieve_from : (o : Option Acceptor) (py : List Tok) → Moves Stays (retrieve_from o py)
unfolding retrieve_from
Stays-retrieve_from none py = search ask_rules
Stays-retrieve_from (some acc) py = search ask_rules

pub Stays-retrieve : (i : Instance) → Moves Stays (paxos_retrieve i)
unfolding paxos_retrieve
Stays-retrieve i = search (ask_rules, Stays-retrieve_from)

pub Stays-retry : (hole : ℕ) → Moves Stays (acceptor_retry hole)
unfolding acceptor_retry
Stays-retry hole = search ask_rules

pub Stays-continuation_new : (f : Callback) (p : ℕ) → Moves Stays (continuation_new f p)
unfolding continuation_new
Stays-continuation_new f p = search ask_rules

pub Stays-welcome : (acc : Acceptor) → Moves Stays (proposer_welcome acc)
unfolding proposer_welcome
Stays-welcome acc = search (ask_rules, Stays-continuation_new)
