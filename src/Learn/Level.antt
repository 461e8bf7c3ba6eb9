-- ===== src/Learn/Level.antt =====
-- What the learning of a value leaves alone (libmotmot/src/paxos_learn.c): the ilist and the hole.
use motmot.Base.{ℕ, ◌≡◌, refl, ◌∙◌, Bool, List, [], ◌∷◌, Option, arith}
use motmot.Core.{Dkind, dec_null, dec_chat, dec_join, dec_part, dec_kill, dec_other}
use motmot.Session.{
  Acceptor, Instance, Request, Session, Callback, Ref, null, list_head, at, off, scratch,
}
use motmot.Msgpack.{Tok}
use motmot.Util.{
  err_ret, err_accum, reset_proposer, proposer_paxid, paxos_broadcast, proposer_decree_part_by,
}
use motmot.Util.Quiet.{Quiet, Quiet-proposer_paxid, Quiet-broadcast, Quiet-deref_instance}
use motmot.Prepare.{paxos_end, part_dropped, start_prepare, proposer_prepare_by, proposer_prepare}
use motmot.Ask.{continuation_new, proposer_welcome}
use motmot.Learn.{
  emit_all, learn_chat_value, joined, learn_join_value, part_acceptor, learn_part_value,
  learn_value, request_for, deref, assert_front,
}
use motmot.Exec.{M, World, Event, Outcome, done, ended, fault, modify, pure, ◌>>◌}
use motmot.Exec.Moves.{
  Moves, Holds, IsPath, Moves-pure, Moves-gets, Moves-emit, Moves-fail, Moves-assert, Moves-need,
  Moves-if, Moves-bind, Moves-option_case, Moves-call_connect,
}

pub record Level (u w : World) : Type 0 where
  pub ilist : w.pax.ilist ≡ u.pax.ilist
  pub hole : w.pax.ihole ≡ u.pax.ihole

pub Level-IsPath : IsPath Level
Level-IsPath = record {
  stay = λ w. record { ilist = refl; hole = refl };
  join = λ u v w a b. record { ilist = b.ilist ∙ a.ilist; hole = b.hole ∙ a.hole };
  logged = λ w e. record { ilist = refl; hole = refl };
}

Level-modify :
    (f : Session → Session)
    → ((s : Session) → (f s).ilist ≡ s.ilist)
    → ((s : Session) → (f s).ihole ≡ s.ihole)
    → Moves Level (modify f)
unfolding modify
Level-modify f h k = record { run = λ w. record { ilist = h w.pax; hole = k w.pax } }

ruleset level_rules = (
  Moves-pure, Moves-gets, Moves-emit, Moves-fail, Moves-assert, Moves-need, Moves-if, Moves-bind,
  Moves-option_case, Moves-call_connect, Level-IsPath, Level-modify,
)

weaken : {A : Type 0} (w : World) (r : Outcome A) → Holds (Quiet w) r → Holds (Level w) r
weaken w (done a v) h = record { ilist = rw h.same refl; hole = rw h.same refl }
weaken w (ended v) h = tt
weaken w (fault e) h = tt

Level-Quiet : {A : Type 0} (m : M A) → Moves Quiet m → Moves Level m
Level-Quiet m h = record { run = λ w. weaken w (m w) (h.run w) }

Level-proposer_paxid : Moves Level proposer_paxid
Level-proposer_paxid = Level-Quiet _ Quiet-proposer_paxid

Level-broadcast : (py : List Tok) → Moves Level (paxos_broadcast py)
Level-broadcast py = Level-Quiet _ (Quiet-broadcast py)

Level-err_accum : (r : ℕ) (m : M ℕ) → Moves Level m → Moves Level (err_accum r m)
unfolding err_accum
Level-err_accum r m hm = search level_rules

Level-err_ret : (m k : M ℕ) → Moves Level m → Moves Level k → Moves Level (err_ret m k)
unfolding err_ret
Level-err_ret m k hm hk = search level_rules

Level-decree_part_by :
    (decree : Instance → M ℕ)
    → ((i : Instance) → Moves Level (decree i))
    → (target : ℕ) (force : Bool) → Moves Level (proposer_decree_part_by decree target force)
unfolding proposer_decree_part_by
Level-decree_part_by decree h target force = search level_rules depth 12

Level-end : {A : Type 0} → Moves Level (paxos_end {A = A})
unfolding paxos_end
Level-end = record { run = λ w. tt }

module _ (decree : Instance → M ℕ) (h : (i : Instance) → Moves Level (decree i)) where
  Level-part_dropped : (self r : ℕ) (l : List Acceptor) → Moves Level (part_dropped decree self r l)
  unfolding part_dropped
  Level-part_dropped self r [] = search level_rules
  Level-part_dropped self r (acc ∷ l) =
      let ih = λ (n : ℕ). Level-part_dropped self n l in
      search (level_rules, Level-err_accum, ih, Level-decree_part_by decree h)

  Level-start_prepare : (old : Bool) → Moves Level (start_prepare decree old)
  unfolding start_prepare
  Level-start_prepare old =
      search (level_rules, Level-err_accum, Level-broadcast, Level-part_dropped) depth 12

  Level-prepare_by : (old : Bool) → Moves Level (proposer_prepare_by decree old)
  unfolding proposer_prepare_by
  Level-prepare_by old = search (level_rules, Level-start_prepare, Level-end)

Level-prepare : (old : Bool) → Moves Level (proposer_prepare old)
unfolding proposer_prepare
Level-prepare old = Level-prepare_by _ (λ i. search level_rules) old

Level-continuation_new : (f : Callback) (p : ℕ) → Moves Level (continuation_new f p)
unfolding continuation_new
Level-continuation_new f p = search level_rules

Level-welcome : (acc : Acceptor) → Moves Level (proposer_welcome acc)
unfolding proposer_welcome
Level-welcome acc = search (level_rules, Level-err_ret, Level-continuation_new)

Level-emit_all : (l : List Event) → Moves Level (emit_all l)
unfolding emit_all
Level-emit_all [] = search level_rules
Level-emit_all (e ∷ l) =
    Moves-bind Level-IsPath _ _ (Moves-emit Level-IsPath e) (λ _. Level-emit_all l)

Level-chat : (req : Option Request) → Moves Level (learn_chat_value req)
unfolding learn_chat_value
Level-chat req = search level_rules depth 12

Level-joined : (inum : ℕ) → Moves Level (joined inum)
unfolding joined
Level-joined inum = search level_rules depth 12

Level-join : (inum : ℕ) (req : Option Request) → Moves Level (learn_join_value inum req)
unfolding learn_join_value
Level-join inum req = search (level_rules, Level-joined, Level-welcome) depth 14

reset-ilist : (s : Session) → (reset_proposer s).ilist ≡ s.ilist
unfolding reset_proposer
reset-ilist s = ground arith

reset-hole : (s : Session) → (reset_proposer s).ihole ≡ s.ihole
unfolding reset_proposer
reset-hole s = ground arith

Level-reset : Moves Level (modify reset_proposer)
Level-reset = Level-modify reset_proposer reset-ilist reset-hole

Level-part : (acc : Acceptor) → Moves Level (part_acceptor acc)
unfolding part_acceptor
Level-part acc =
    search (level_rules, Level-proposer_paxid, Level-reset, Level-prepare, Level-emit_all) depth 14

Level-part_value : (target : ℕ) → Moves Level (learn_part_value target)
unfolding learn_part_value
Level-part_value target = search (level_rules, Level-part, Level-end) depth 12

pub Level-value :
    (i : Instance) (req : Option Request) (k : Dkind) → Moves Level (learn_value i req k)
unfolding learn_value
Level-value i req dec_null = search level_rules
Level-value i req dec_chat = Level-chat req
Level-value i req dec_join = Level-join _ req
Level-value i req dec_part = Level-part_value _
Level-value i req dec_kill = Level-part_value _
Level-value i req (dec_other n) = search level_rules

pub Level-request_for : (i : Instance) → Moves Level (request_for i)
unfolding request_for
Level-request_for i = search level_rules depth 10

-- The loop's last write.
abbrev pub stop : (Session → Ref) → M ℕ
stop f = do modify (λ s. record s { istart = f s }); pure 0

pub Level-istart : (f : Session → Ref) → Moves Level (stop f)
Level-istart f = search level_rules

pub Level-deref : (p : Ref) → Moves Level (deref p)
unfolding deref
Level-deref null = search level_rules
Level-deref list_head = search level_rules
Level-deref (at n) = Level-Quiet _ (Quiet-deref_instance n)
Level-deref (off i r) = search level_rules
Level-deref (scratch i r) = search level_rules

pub Level-assert_front : (hole : ℕ) (l : List Instance) → Moves Level (assert_front hole l)
unfolding assert_front
Level-assert_front hole [] = search level_rules
Level-assert_front hole (x ∷ l) = search level_rules
