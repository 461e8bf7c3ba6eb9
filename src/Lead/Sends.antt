-- ===== src/Lead/Sends.antt =====
-- The functions that send or ask, in a session that is its own proposer.
use motmot.Base.{ℕ, List, [], ◌∷◌, Option, none, some}
use motmot.Session.{Acceptor, Instance, Callback}
use motmot.Msgpack.{Tok}
use motmot.Util.{
  err_ret, err_accum, paxos_peer_send, paxos_send, paxos_send_to_proposer, broadcast_to,
  paxos_broadcast, paxos_broadcast_instance, proposer_paxid, deref_acceptor, deref_instance,
}
use motmot.Prepare.{paxos_end}
use motmot.Ask.{retrieve_from, paxos_retrieve, acceptor_retry, continuation_new, proposer_welcome}
use motmot.Exec.{M}
use motmot.Lead.{Leader, lead_rules}

pub Leader-err_ret : (m k : M ℕ) → Leader m → Leader k → Leader (err_ret m k)
unfolding err_ret
Leader-err_ret m k hm hk = search lead_rules

pub Leader-err_accum : (r : ℕ) (m : M ℕ) → Leader m → Leader (err_accum r m)
unfolding err_accum
Leader-err_accum r m hm = search lead_rules

pub Leader-peer_send : (p : Option ℕ) (py : List Tok) → Leader (paxos_peer_send p py)
unfolding paxos_peer_send
Leader-peer_send none py = search lead_rules
Leader-peer_send (some p) py = search lead_rules

pub Leader-send : (acc : Acceptor) (py : List Tok) → Leader (paxos_send acc py)
unfolding paxos_send
Leader-send acc py = Leader-peer_send acc.pa_peer py

pub Leader-proposer_paxid : Leader proposer_paxid
unfolding proposer_paxid
Leader-proposer_paxid = search lead_rules

pub Leader-deref_acceptor : (p : ℕ) → Leader (deref_acceptor p)
unfolding deref_acceptor
Leader-deref_acceptor p = search lead_rules

pub Leader-deref_instance : (p : ℕ) → Leader (deref_instance p)
unfolding deref_instance
Leader-deref_instance p = search lead_rules

pub ruleset send_rules = (
  lead_rules, Leader-err_ret, Leader-err_accum, Leader-send, Leader-peer_send,
  Leader-proposer_paxid, Leader-deref_acceptor,
)

pub Leader-send_to_proposer : (py : List Tok) → Leader (paxos_send_to_proposer py)
unfolding paxos_send_to_proposer
Leader-send_to_proposer py = search send_rules

Leader-broadcast_to : (py : List Tok) (r : ℕ) (l : List Acceptor) → Leader (broadcast_to py r l)
unfolding broadcast_to
Leader-broadcast_to py r [] = search send_rules
Leader-broadcast_to py r (acc ∷ l) =
    let ih = λ (n : ℕ). Leader-broadcast_to py n l in search (send_rules, ih)

pub Leader-broadcast : (py : List Tok) → Leader (paxos_broadcast py)
unfolding paxos_broadcast
Leader-broadcast py = search (send_rules, Leader-broadcast_to)

pub Leader-broadcast_instance : (i : Instance) → Leader (paxos_broadcast_instance i)
unfolding paxos_broadcast_instance
Leader-broadcast_instance i = search Leader-broadcast

pub ruleset ask_rules =
    (send_rules, Leader-send_to_proposer, Leader-broadcast, Leader-broadcast_instance)

pub Leader-end : {A : Type 0} → Leader (paxos_end {A = A})
unfolding paxos_end
Leader-end = record { run = λ w h. tt }

Leader-retrieve_from : (o : Option Acceptor) (py : List Tok) → Leader (retrieve_from o py)
unfolding retrieve_from
Leader-retrieve_from none py = search ask_rules
Leader-retrieve_from (some acc) py = search ask_rules

pub Leader-retrieve : (i : Instance) → Leader (paxos_retrieve i)
unfolding paxos_retrieve
Leader-retrieve i = search (ask_rules, Leader-retrieve_from)

pub Leader-retry : (hole : ℕ) → Leader (acceptor_retry hole)
unfolding acceptor_retry
Leader-retry hole = search ask_rules

pub Leader-continuation_new : (f : Callback) (p : ℕ) → Leader (continuation_new f p)
unfolding continuation_new
Leader-continuation_new f p = search ask_rules

pub Leader-welcome : (acc : Acceptor) → Leader (proposer_welcome acc)
unfolding proposer_welcome
Leader-welcome acc = search (ask_rules, Leader-continuation_new)
