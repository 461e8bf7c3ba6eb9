-- ===== src/Lead/Learning.antt =====
-- The functions of paxos_learn.c, in a session that is its own proposer.
use motmot.Base.{ℕ, ◌≡◌, refl, List, [], ◌∷◌, Option}
use motmot.Core.{Dkind, dec_null, dec_chat, dec_join, dec_part, dec_kill, dec_other}
use motmot.Session.{Acceptor, Instance, Request, Ref, null, list_head, at, off, scratch}
use motmot.Util.{write_instance}
use motmot.Learn.{
  emit_all, learn_chat_value, joined, learn_join_value, part_acceptor, learn_part_value,
  learn_value, paxos_learn, request_for, learn_round, learn_from, deref, assert_front, learn_nodes,
  learn_off, learn_next, learn_start, learn_contiguous, wait_for_hole, commit_cached, paxos_commit,
  set_istart,
}
use motmot.Base.{◌==◌, false, if◌then◌else◌}
use motmot.Prepare.{paxos_end}
use motmot.SessionLocal.{acceptor_find}
use motmot.Util.{proposer_paxid}
use motmot.Exec.{M, World, Event, learn_part, emit, done, gets, need, modify, ◌>>=◌, ◌>>◌}
use motmot.Lead.{
  Leads, Led, Led-bind, Leader, lead_rules, Leader-modify, Led-join, Led-known, Led-gets, Led-if,
  Led-option_case, Leader-pure, Leader-else, Leader-emit, Leader-bind,
}
use motmot.Lead.Sends.{
  ask_rules, Leader-err_ret, Leader-deref_instance, Leader-end, Leader-retrieve, Leader-retry,
  Leader-welcome,
}

pub Leader-emit_all : (l : List Event) → Leader (emit_all l)
unfolding emit_all
Leader-emit_all [] = search lead_rules
Leader-emit_all (e ∷ l) = Leader-bind _ _ (Leader-emit e) (λ _. Leader-emit_all l)

Leader-chat : (req : Option Request) → Leader (learn_chat_value req)
unfolding learn_chat_value
Leader-chat req = search ask_rules depth 12

Leader-joined : (inum : ℕ) → Leader (joined inum)
unfolding joined
Leader-joined inum = search ask_rules depth 12

Leader-join : (inum : ℕ) (req : Option Request) → Leader (learn_join_value inum req)
unfolding learn_join_value
Leader-join inum req = search (ask_rules, Leader-joined, Leader-welcome) depth 14

own_paxid : (w : World) → Leads w.pax → proposer_paxid w ≡ done w.pax.self_id w
unfolding proposer_paxid ◌>>=◌ gets need
own_paxid w h = rw h.leader refl

-- The parted acceptor is not ourselves, so it is not the proposer.
Led-part :
    (acc : Acceptor) (w : World)
    → Leads w.pax
    → (acc.pa_paxid == w.pax.self_id) ≡ false
    → Led w (part_acceptor acc w)
unfolding part_acceptor
Led-part acc w h n =
    Led-bind w _ _ ((Leader-modify _ (λ s. refl) (λ s. refl) (λ s. refl)).run w h) λ _ v l.
      Led-join w v _ l (
        Led-known v v proposer_paxid _ v.pax.self_id (own_paxid v l.leads) (
          (Leader-bind _ _
              (Leader-else (acc.pa_paxid == v.pax.self_id) _ _ (rw l.self n) (Leader-pure 0))
              (λ r. search (lead_rules, Leader-emit_all))).run
            v l.leads))

Led-part_listed :
    (acc : Acceptor) (w : World)
    → Leads w.pax
    → Led w (
        (do
          emit (learn_part acc.pa_desc acc.pa_desc w.pax.client_data)
          if acc.pa_paxid == w.pax.self_id then paxos_end else part_acceptor acc)
          w)
Led-part_listed acc w h = Led-bind w _ _ ((Leader-emit _).run w h) λ _ v l. Led-join w v _ l (
    Led-if v (acc.pa_paxid == w.pax.self_id) _ _ (Leader-end.run v l.leads)
      (λ n. Led-part acc v l.leads (rw l.self n)))

Leader-part_value : (target : ℕ) → Leader (learn_part_value target)
unfolding learn_part_value
Leader-part_value target = record {
  run = λ w h.
      Led-gets w (λ s. s) _
        (Led-option_case w (acceptor_find target w.pax.alist) _ _ ((Leader-pure 0).run w h)
          (λ acc. Led-part_listed acc w h));
}

Leader-value : (i : Instance) (req : Option Request) (k : Dkind) → Leader (learn_value i req k)
unfolding learn_value
Leader-value i req dec_null = search lead_rules
Leader-value i req dec_chat = Leader-chat req
Leader-value i req dec_join = Leader-join _ req
Leader-value i req dec_part = Leader-part_value _
Leader-value i req dec_kill = Leader-part_value _
Leader-value i req (dec_other n) = search lead_rules

pub Leader-write : (n : ℕ) (f : Instance → Instance) → Leader (modify (write_instance n f))
unfolding write_instance
Leader-write n f = search lead_rules

Leader-learn : (i : Instance) (req : Option Request) → Leader (paxos_learn i req)
unfolding paxos_learn
Leader-learn i req = search (lead_rules, Leader-write, Leader-value)

Leader-request_for : (i : Instance) → Leader (request_for i)
unfolding request_for
Leader-request_for i = search lead_rules depth 10

Leader-learn_round :
    (p : Ref) (it : Instance) (rest : M ℕ) → Leader rest → Leader (learn_round p it rest)
unfolding learn_round set_istart
Leader-learn_round p it rest h =
    search (ask_rules, Leader-err_ret, Leader-learn, Leader-request_for) depth 16

Leader-learn_from : (p : Ref) (l : List Instance) → Leader (learn_from p l)
unfolding learn_from
Leader-learn_from p [] = search ask_rules
Leader-learn_from p (it ∷ l) =
    Leader-learn_round p it _ (Leader-learn_from (at it.pi_hdr.ph_inum) l)

Leader-deref : (p : Ref) → Leader (deref p)
unfolding deref
Leader-deref null = search lead_rules
Leader-deref list_head = search lead_rules
Leader-deref (at n) = Leader-deref_instance n
Leader-deref (off i r) = search lead_rules
Leader-deref (scratch i r) = search lead_rules

Leader-assert_front : (hole : ℕ) (l : List Instance) → Leader (assert_front hole l)
unfolding assert_front
Leader-assert_front hole [] = search lead_rules
Leader-assert_front hole (x ∷ l) = search lead_rules

Leader-learn_nodes : (p : Ref) (l : List Instance) → Leader (learn_nodes p l)
unfolding learn_nodes set_istart
Leader-learn_nodes p l = search (ask_rules, Leader-assert_front, Leader-learn_from) depth 14

Leader-learn_off : (i : Instance) (r : Ref) → Leader (learn_off i r)
unfolding learn_off set_istart
Leader-learn_off i r = search ask_rules depth 14

Leader-learn_next : (p : Ref) → Leader (learn_next p)
unfolding learn_next
Leader-learn_next null = search ask_rules
Leader-learn_next list_head = search ask_rules
Leader-learn_next (at n) = search (ask_rules, Leader-learn_nodes)
Leader-learn_next (off i r) = Leader-learn_off i r
Leader-learn_next (scratch i r) = Leader-learn_off i r

Leader-learn_start : (p : Ref) (start : Instance) → Leader (learn_start p start)
unfolding learn_start
Leader-learn_start null start = search ask_rules
Leader-learn_start list_head start = search ask_rules
Leader-learn_start (at n) start = search (ask_rules, Leader-learn_nodes)
Leader-learn_start (off i r) start = search (ask_rules, Leader-learn_off, Leader-learn_next)
Leader-learn_start (scratch i r) start = search (ask_rules, Leader-learn_off, Leader-learn_next)

Leader-contiguous : Leader learn_contiguous
unfolding learn_contiguous
Leader-contiguous = search (ask_rules, Leader-deref, Leader-learn_start) depth 14

Leader-wait : Leader wait_for_hole
unfolding wait_for_hole
Leader-wait = search (ask_rules, Leader-deref, Leader-retry) depth 14

Leader-commit_cached : (n : ℕ) → Leader (commit_cached n)
unfolding commit_cached
Leader-commit_cached n = search (ask_rules, Leader-write, Leader-contiguous, Leader-wait) depth 12

pub Leader-commit : (n : ℕ) → Leader (paxos_commit n)
unfolding paxos_commit
Leader-commit n =
    search (ask_rules, Leader-write, Leader-deref_instance, Leader-retrieve, Leader-commit_cached)
      depth 12
