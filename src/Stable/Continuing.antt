-- ===== src/Stable/Continuing.antt =====
-- Lost connections and continuations (paxos.c, paxos_continue.h), under the relation of the parent
-- module.
use motmot.Base.{
  ℕ, ◌≡◌, refl, List, Bool, true, false, Option, some, arith, ltb, inl, inr, Option-cases,
  if◌then◌else◌,
}
use motmot.Session.{
  Acceptor, Request, Session, Callback, Continuation, continue_welcome, continue_ack_welcome,
  continue_ack_redirect, continue_ack_refuse, continue_ack_reject,
}
use motmot.SessionLocal.{acceptor_find}
use motmot.Greet.{do_continue_welcome, do_continue_ack_welcome}
use motmot.Reconnect.{do_continue_ack_redirect, do_continue_ack_refuse, resend_request}
use motmot.Dispatch.{nth, without, do_continue, connectinuate, lose_acceptor, drop_connection}
use motmot.Exec.{World, pure, gets, need, modify, option_case, ◌>>=◌}
use motmot.Exec.Moves.{Moves, Holds, Moves-bind, Moves-pure, Moves-option_case}
use motmot.Stable.{Stays, Stays-IsPath, Stays-modify}
use motmot.Stable.Sends.{ask_rules, Stays-err_ret, Stays-err_accum, Stays-send}
use motmot.Stable.Learning.{Stays-emit_all, Stays-reset}
use motmot.Stable.Decrees.{Stays-decree_part}
use motmot.Stable.Messages.{Stays-attach, Stays-hello, Stays-reprepare, Stays-write_acceptor}
use motmot.Stable.Dispatching.{Stays-still}

ruleset run_rules = (
  ask_rules, Stays-err_ret, Stays-err_accum, Stays-send, Stays-emit_all, Stays-reset,
  Stays-decree_part, Stays-attach, Stays-hello, Stays-reprepare, Stays-write_acceptor,
)

Stays-lose_acceptor : (acc : Acceptor) → Moves Stays (lose_acceptor acc)
unfolding lose_acceptor
Stays-lose_acceptor acc = search run_rules depth 20

pub Stays-drop_connection : (source : ℕ) → Moves Stays (drop_connection source)
unfolding drop_connection
Stays-drop_connection source = search (run_rules, Stays-still, Stays-lose_acceptor) depth 8

Stays-welcomed : (chan : Option ℕ) (acc : Acceptor) → Moves Stays (do_continue_welcome chan acc)
unfolding do_continue_welcome
Stays-welcomed chan acc = search run_rules depth 12

Stays-greeted : (chan : Option ℕ) (acc : Acceptor) → Moves Stays (do_continue_ack_welcome chan acc)
unfolding do_continue_ack_welcome
Stays-greeted chan acc = search run_rules depth 12

take_keeps :
    (a p : ℕ) (s : Session)
    → (if ltb a p then record s { proposer = some a } else s).ilist ≡ s.ilist
take_keeps a p s = ground arith

Stays-take :
    (a p : ℕ) → Moves Stays (modify (λ s. if ltb a p then record s { proposer = some a } else s))
Stays-take a p =
    Stays-modify (λ s. if ltb a p then record s { proposer = some a } else s) (take_keeps a p)

Stays-redirected :
    (chan : Option ℕ) (acc : Acceptor) → Moves Stays (do_continue_ack_redirect chan acc)
unfolding do_continue_ack_redirect
Stays-redirected chan acc = search (run_rules, Stays-take) depth 20

Stays-resend : (p : ℕ) (own : Request) → Moves Stays (resend_request p own)
unfolding resend_request
Stays-resend p own = search run_rules depth 12

Stays-refused :
    (own : Request) (chan : Option ℕ) (acc : Acceptor)
    → Moves Stays (do_continue_ack_refuse own chan acc)
unfolding do_continue_ack_refuse
Stays-refused own chan acc = search (run_rules, Stays-resend) depth 20

-- The continuation that may take back a commit.
abbrev pub undoes : Callback → Bool
undoes (continue_ack_reject inum) = true
undoes _ = false

Stays-do_continue :
    (cb : Callback) (chan : Option ℕ) (acc : Acceptor)
    → undoes cb ≡ false
    → Moves Stays (do_continue cb chan acc)
unfolding do_continue
Stays-do_continue continue_welcome chan acc h = Stays-welcomed chan acc
Stays-do_continue continue_ack_welcome chan acc h = Stays-greeted chan acc
Stays-do_continue continue_ack_redirect chan acc h = Stays-redirected chan acc
Stays-do_continue (continue_ack_refuse req) chan acc h = Stays-refused req chan acc
Stays-do_continue (continue_ack_reject inum) chan acc h = ground arith

Stays-continuing :
    (k : Continuation) (l : List Acceptor) (chan : Option ℕ)
    → undoes k.pk_cb ≡ false
    → Moves Stays
        (option_case (acceptor_find k.pk_paxid l) (pure 0) (λ acc. do_continue k.pk_cb chan acc))
Stays-continuing k l chan h =
    Moves-option_case Stays-IsPath _ _ _ (search run_rules)
      (λ acc. Stays-do_continue k.pk_cb chan acc h)

Stays-unlist : (place : ℕ) → Moves Stays (modify (λ s. record s { clist = without place s.clist }))
Stays-unlist place = Stays-modify (λ s. record s { clist = without place s.clist }) (λ s. refl)

-- The continuation at a place, if there is one, is not that of a reject.
abbrev pub Safe : ℕ → World → Type 0
Safe place w = (k : Continuation) → nth place w.pax.clist ≡ some k → undoes k.pk_cb ≡ false

pub connectinuate-Stays :
    (place : ℕ) (chan : Option ℕ) (w : World)
    → Safe place w
    → Holds (Stays w) (connectinuate place chan w)
unfolding connectinuate ◌>>=◌ gets need
connectinuate-Stays place chan w h = elim (Option-cases (nth place w.pax.clist)) [
  | inl e ↦ simp e tt
  | inr (k, e) ↦
      let first = Stays-still _ (Stays-continuing k w.pax.alist chan (h k e)) in
      let after = λ (r : ℕ).
        Moves-bind Stays-IsPath _ _ (Stays-unlist place) (λ _. Moves-pure Stays-IsPath r) in
      simp e ((Moves-bind Stays-IsPath _ _ first after).run w)
]
