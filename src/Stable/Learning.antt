-- ===== src/Stable/Learning.antt =====
-- The functions of paxos_learn.c, under the relation of the parent module.
use motmot.Base.{ℕ, ◌≡◌, refl, true, List, [], ◌∷◌, Option, arith}
use motmot.Core.{Dkind, dec_null, dec_chat, dec_join, dec_part, dec_kill, dec_other}
use motmot.Session.{Acceptor, Instance, Request, Session, Ref, null, list_head, at, off, scratch}
use motmot.SessionLocal.{inum_of}
use motmot.Util.{write_instance}
use motmot.Learn.{
  emit_all, learn_chat_value, joined, learn_join_value, part_acceptor, learn_part_value,
  learn_value, paxos_learn, request_for, learn_round, learn_from, deref, assert_front, learn_nodes,
  learn_off, learn_next, learn_start, learn_contiguous, wait_for_hole, commit_cached, paxos_commit,
  set_istart,
}
use motmot.Util.{reset_proposer}
use motmot.Exec.{M, Event, modify}
use motmot.Exec.Moves.{Moves, Moves-bind, Moves-emit}
use motmot.Stable.{Stays, Same, stays_rules, Stays-write_any, Stays-modify, Stays-IsPath}
use motmot.Stable.Sends.{
  ask_rules, Stays-err_ret, Stays-deref_instance, Stays-prepare, Stays-end, Stays-retrieve,
  Stays-retry, Stays-welcome,
}

pub Stays-emit_all : (l : List Event) → Moves Stays (emit_all l)
unfolding emit_all
Stays-emit_all [] = search stays_rules
Stays-emit_all (e ∷ l) =
    Moves-bind Stays-IsPath _ _ (Moves-emit Stays-IsPath e) (λ _. Stays-emit_all l)

Stays-chat : (req : Option Request) → Moves Stays (learn_chat_value req)
unfolding learn_chat_value
Stays-chat req = search ask_rules depth 12

Stays-joined : (inum : ℕ) → Moves Stays (joined inum)
unfolding joined
Stays-joined inum = search ask_rules depth 12

Stays-join : (inum : ℕ) (req : Option Request) → Moves Stays (learn_join_value inum req)
unfolding learn_join_value
Stays-join inum req = search (ask_rules, Stays-joined, Stays-welcome) depth 14

reset_keeps : (s : Session) → (reset_proposer s).ilist ≡ s.ilist
unfolding reset_proposer
reset_keeps s = ground arith

pub Stays-reset : Moves Stays (modify reset_proposer)
Stays-reset = Stays-modify reset_proposer reset_keeps

Stays-part : (acc : Acceptor) → Moves Stays (part_acceptor acc)
unfolding part_acceptor
Stays-part acc = search (ask_rules, Stays-reset, Stays-prepare, Stays-emit_all) depth 14

Stays-part_value : (target : ℕ) → Moves Stays (learn_part_value target)
unfolding learn_part_value
Stays-part_value target = search (ask_rules, Stays-part, Stays-end) depth 12

Stays-value : (i : Instance) (req : Option Request) (k : Dkind) → Moves Stays (learn_value i req k)
unfolding learn_value
Stays-value i req dec_null = search stays_rules
Stays-value i req dec_chat = Stays-chat req
Stays-value i req dec_join = Stays-join _ req
Stays-value i req dec_part = Stays-part_value _
Stays-value i req dec_kill = Stays-part_value _
Stays-value i req (dec_other n) = search stays_rules

-- Writes of a flag.
pub Stays-flag :
    (n : ℕ) (f : Instance → Instance)
    → ((x : Instance) → inum_of (f x) ≡ inum_of x)
    → ((x : Instance) → x.pi_committed ≡ true → Same x (f x))
    → Moves Stays (modify (write_instance n f))
Stays-flag n f num val = Stays-write_any n f (record { number = λ x h. rw (num x) h; value = val })

pub Stays-learn : (i : Instance) (req : Option Request) → Moves Stays (paxos_learn i req)
unfolding paxos_learn
Stays-learn i req =
    let w =
      Stays-flag i.pi_hdr.ph_inum (λ x. record x { pi_learned = true }) (λ x. refl)
        (λ x c. record { committed = c; value = refl }) in
    search (stays_rules, w, Stays-value)

Stays-request_for : (i : Instance) → Moves Stays (request_for i)
unfolding request_for
Stays-request_for i = search stays_rules depth 10

Stays-learn_round :
    (p : Ref) (it : Instance) (rest : M ℕ) → Moves Stays rest → Moves Stays (learn_round p it rest)
unfolding learn_round set_istart
Stays-learn_round p it rest h =
    search (ask_rules, Stays-err_ret, Stays-learn, Stays-request_for) depth 16

Stays-learn_from : (p : Ref) (l : List Instance) → Moves Stays (learn_from p l)
unfolding learn_from
Stays-learn_from p [] = search ask_rules
Stays-learn_from p (it ∷ l) = Stays-learn_round p it _ (Stays-learn_from (at it.pi_hdr.ph_inum) l)

Stays-deref : (p : Ref) → Moves Stays (deref p)
unfolding deref
Stays-deref null = search stays_rules
Stays-deref list_head = search stays_rules
Stays-deref (at n) = Stays-deref_instance n
Stays-deref (off i r) = search stays_rules
Stays-deref (scratch i r) = search stays_rules

Stays-assert_front : (hole : ℕ) (l : List Instance) → Moves Stays (assert_front hole l)
unfolding assert_front
Stays-assert_front hole [] = search stays_rules
Stays-assert_front hole (x ∷ l) = search stays_rules

Stays-learn_nodes : (p : Ref) (l : List Instance) → Moves Stays (learn_nodes p l)
unfolding learn_nodes set_istart
Stays-learn_nodes p l = search (ask_rules, Stays-assert_front, Stays-learn_from) depth 14

Stays-learn_off : (i : Instance) (r : Ref) → Moves Stays (learn_off i r)
unfolding learn_off set_istart
Stays-learn_off i r = search ask_rules depth 14

Stays-learn_next : (p : Ref) → Moves Stays (learn_next p)
unfolding learn_next
Stays-learn_next null = search ask_rules
Stays-learn_next list_head = search ask_rules
Stays-learn_next (at n) = search (ask_rules, Stays-learn_nodes)
Stays-learn_next (off i r) = Stays-learn_off i r
Stays-learn_next (scratch i r) = Stays-learn_off i r

Stays-learn_start : (p : Ref) (start : Instance) → Moves Stays (learn_start p start)
unfolding learn_start
Stays-learn_start null start = search ask_rules
Stays-learn_start list_head start = search ask_rules
Stays-learn_start (at n) start = search (ask_rules, Stays-learn_nodes)
Stays-learn_start (off i r) start = search (ask_rules, Stays-learn_off, Stays-learn_next)
Stays-learn_start (scratch i r) start = search (ask_rules, Stays-learn_off, Stays-learn_next)

Stays-contiguous : Moves Stays learn_contiguous
unfolding learn_contiguous
Stays-contiguous = search (ask_rules, Stays-deref, Stays-learn_start) depth 14

Stays-wait : Moves Stays wait_for_hole
unfolding wait_for_hole
Stays-wait = search (ask_rules, Stays-deref, Stays-retry) depth 14

pub Stays-commit_cached : (n : ℕ) → Moves Stays (commit_cached n)
unfolding commit_cached
Stays-commit_cached n =
    let w =
      Stays-flag n (λ i. record i { pi_cached = true }) (λ x. refl)
        (λ x c. record { committed = c; value = refl }) in
    Moves-bind Stays-IsPath _ _ w λ _. Moves-bind Stays-IsPath _ _ (search ask_rules) λ hole.
      Moves-bind Stays-IsPath _ _ (search ask_rules)
        λ _. search (ask_rules, Stays-contiguous, Stays-wait)

pub Stays-commit : (n : ℕ) → Moves Stays (paxos_commit n)
unfolding paxos_commit
Stays-commit n =
    let w =
      Stays-flag n (λ i. record i { pi_committed = true }) (λ x. refl)
        (λ x c. record { committed = refl; value = refl }) in
    Moves-bind Stays-IsPath _ _ w λ _. Moves-bind Stays-IsPath _ _ (Stays-deref_instance n) λ inst.
      Moves-bind Stays-IsPath _ _ (search ask_rules)
        λ req. search (ask_rules, Stays-retrieve, Stays-commit_cached)
