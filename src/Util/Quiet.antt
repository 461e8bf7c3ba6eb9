-- ===== src/Util/Quiet.antt =====
-- The functions of libmotmot/src/paxos_util.c that send, and what a session is after them.
use motmot.Base.{
  ℕ, Bool-cases, inl, inr, ◌==◌, if◌then◌else◌, ◌≡◌, refl, sym, subst, ◌∙◌, Option, none, some,
  List, [], ◌∷◌,
}
use motmot.Session.{Session, Acceptor, Instance}
use motmot.Msgpack.{Tok}
use motmot.Util.{
  err_ret, err_accum, paxos_peer_send, paxos_send, paxos_send_to_proposer, deref_acceptor,
  deref_instance, proposer_paxid, broadcast_to, paxos_broadcast, paxos_broadcast_instance,
}
use motmot.Exec.{M, continue, pure, ◌>>=◌, World, Outcome, done, ended, fault}
use motmot.Exec.Moves.{
  Moves, Holds, IsPath, Moves-pure, Moves-gets, Moves-emit, Moves-fail, Moves-need, Moves-bind,
  Moves-option_case,
}

-- A handler that only sends.
pub record Quiet (u w : World) : Type 0 where
  pub same : w.pax ≡ u.pax

pub Quiet-IsPath : IsPath Quiet
Quiet-IsPath = record {
  stay = λ w. record { same = refl };
  join = λ u v w a b. record { same = b.same ∙ a.same };
  logged = λ w e. record { same = refl };
}

-- What holds of the session holds after a handler that only sends.
pub Holds-Quiet :
    {A : Type 0} (P : Session → Type 0) (w : World) (r : Outcome A)
    → P w.pax
    → Holds (Quiet w) r
    → Holds (λ v. P v.pax) r
Holds-Quiet P w (done a v) p h = subst P (sym h.same) p
Holds-Quiet P w (ended v) p h = tt
Holds-Quiet P w (fault e) p h = tt

pub ruleset quiet_rules = (
  Quiet-IsPath, Moves-pure, Moves-gets, Moves-emit, Moves-fail, Moves-need, Moves-bind,
  Moves-option_case,
)

pub Quiet-peer_send : (p : Option ℕ) (py : List Tok) → Moves Quiet (paxos_peer_send p py)
unfolding paxos_peer_send
Quiet-peer_send none py = search quiet_rules
Quiet-peer_send (some p) py = search quiet_rules

pub Quiet-proposer_paxid : Moves Quiet proposer_paxid
unfolding proposer_paxid
Quiet-proposer_paxid = search quiet_rules

pub Quiet-deref : (p : ℕ) → Moves Quiet (deref_acceptor p)
unfolding deref_acceptor
Quiet-deref p = search quiet_rules

pub Quiet-deref_instance : (n : ℕ) → Moves Quiet (deref_instance n)
unfolding deref_instance
Quiet-deref_instance n = search quiet_rules

pub Quiet-send : (acc : Acceptor) (py : List Tok) → Moves Quiet (paxos_send acc py)
unfolding paxos_send
Quiet-send acc py = Quiet-peer_send acc.pa_peer py

pub Quiet-to_proposer : (py : List Tok) → Moves Quiet (paxos_send_to_proposer py)
unfolding paxos_send_to_proposer
Quiet-to_proposer py = search (quiet_rules, Quiet-deref, Quiet-send) depth 8

Quiet-broadcast_to : (py : List Tok) (r : ℕ) (l : List Acceptor) → Moves Quiet (broadcast_to py r l)
unfolding broadcast_to err_accum
Quiet-broadcast_to py r [] = search quiet_rules
Quiet-broadcast_to py r (acc ∷ l) =
    let ih = λ (n : ℕ). Quiet-broadcast_to py n l in search (quiet_rules, Quiet-send, ih) depth 8

pub Quiet-broadcast : (py : List Tok) → Moves Quiet (paxos_broadcast py)
unfolding paxos_broadcast
Quiet-broadcast py = search (quiet_rules, Quiet-broadcast_to) depth 8

pub Quiet-broadcast_instance : (i : Instance) → Moves Quiet (paxos_broadcast_instance i)
unfolding paxos_broadcast_instance
Quiet-broadcast_instance i = Quiet-broadcast _

returned_Holds :
    (P Q : World → Type 0) (r : Outcome ℕ) (k : M ℕ)
    → Holds Q r
    → ((v : World) → Q v → P v)
    → ((v : World) → Q v → Holds P (k v))
    → Holds P (continue r (λ n. if n == 0 then k else pure n))
unfolding pure
returned_Holds P Q (done n v) k h p q = elim (Bool-cases (n == 0)) [
  | inl e ↦ rw e (q v h)
  | inr e ↦ rw e (p v h)
]
returned_Holds P Q (ended v) k h p q = tt
returned_Holds P Q (fault e) k h p q = tt

-- ERR_RET goes on, or returns early.
pub Holds-err_ret :
    (P Q : World → Type 0) (m k : M ℕ) (w : World)
    → Holds Q (m w)
    → ((v : World) → Q v → P v)
    → ((v : World) → Q v → Holds P (k v))
    → Holds P (err_ret m k w)
unfolding err_ret ◌>>=◌
Holds-err_ret P Q m k w h p q = returned_Holds P Q (m w) k h p q
