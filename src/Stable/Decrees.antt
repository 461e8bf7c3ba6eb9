-- ===== src/Stable/Decrees.antt =====
-- The handlers of paxos_proposer.c (but for promises) and of paxos_acceptor.c, under the relation of
-- the parent module.
use motmot.Base.{
  ℕ, ◌≡◌, refl, sym, subst, ◌∙◌, Bool, true, false, List, none, some, arith, inl, inr, Bool-cases,
  Option-cases,
}
use motmot.Core.{ballot_compare, Header, Value, Dkind, dec_part}
use motmot.Session.{Instance, Session, zero_instance}
use motmot.SessionLocal.{inum_of, get_at, instance_find, instance_insert}
use motmot.SessionLocal.Tables.{
  Increasing, get_at_key, find_rev-eq-get_at, get_at-insert_rev_new, get_at-set_at_self,
}
use motmot.Msgpack.{Obj}
use motmot.Codec.{paxos_value_unpack}
use motmot.Util.{write_instance, instance_insert_and_upstart}
use motmot.Proposer.{proposer_commit, proposer_decree, proposer_decree_part, proposer_ack_accept}
use motmot.Retry.{acceptor_ack_recommit}
use motmot.Objection.{acceptor_redirect, acceptor_reject}
use motmot.Acceptor.{
  acceptor_promise, acceptor_ack_prepare, acceptor_accept, accept_decree, accept_over, is_ge,
  commit_value, rejects_part, acceptor_ack_decree, acceptor_ack_commit, fresh_instance,
}
use motmot.Exec.{World, M, modify, gets, ◌>>=◌, option_case, assert, need}
use motmot.Exec.Moves.{
  Moves, Holds, Moves-bind, Moves-gets-bind, Holds-bind, Holds-join, Moves-pure,
}
use motmot.Stable.{Stays, stays_rules, Stays-write, Holds-sorted, Stays-insert, Stays-IsPath}
use motmot.Stable.Sends.{
  ask_rules, Stays-err_ret, Stays-deref_instance, Stays-decree_part_by, Stays-broadcast_instance,
}
use motmot.Stable.Learning.{Stays-flag, Stays-commit}

-- A search that finds an instance gives the one behind the pointer.
pub found_at :
    (n : ℕ) (l : List Instance) (i : Instance)
    → Increasing inum_of l
    → instance_find n l ≡ some i
    → get_at inum_of n l ≡ some i
unfolding instance_find
found_at n l i s e = sym (find_rev-eq-get_at inum_of n l s) ∙ e

pub Stays-proposer_commit : (n : ℕ) → Moves Stays (proposer_commit n)
unfolding proposer_commit
Stays-proposer_commit n =
    let w =
      Stays-flag n (λ i. record i { pi_hdr = record i.pi_hdr { ph_opcode = _ } }) (λ x. refl)
        (λ x c. record { committed = c; value = refl }) in
    Moves-bind Stays-IsPath _ _ w
      λ _. search (ask_rules, Stays-err_ret, Stays-deref_instance, Stays-commit)

pub Stays-decree : (i : Instance) → Moves Stays (proposer_decree i)
unfolding proposer_decree
Stays-decree i =
    search (ask_rules, Stays-err_ret, Stays-broadcast_instance, Stays-proposer_commit) depth 12

pub Stays-decree_part :
    (target : ℕ) (force : Bool) → Moves Stays (proposer_decree_part target force)
unfolding proposer_decree_part
Stays-decree_part target force = Stays-decree_part_by proposer_decree Stays-decree target force

pub Stays-ack_accept : (hdr : Header) → Moves Stays (proposer_ack_accept hdr)
unfolding proposer_ack_accept
Stays-ack_accept hdr =
    let w = λ (n : ℕ).
      Stays-flag n (λ i. record i { pi_votes = _ }) (λ x. refl)
        (λ x c. record { committed = c; value = refl }) in
    Moves-bind Stays-IsPath _ _ (search ask_rules) λ pax.
      Moves-bind Stays-IsPath _ _ (search ask_rules) λ _.
        Moves-bind Stays-IsPath _ _ (search ask_rules) λ inst.
          Moves-bind Stays-IsPath _ _ (w inst.pi_hdr.ph_inum)
            λ _. search (ask_rules, Stays-proposer_commit)

pub Stays-redirect : (source : ℕ) (hdr : Header) → Moves Stays (acceptor_redirect source hdr)
unfolding acceptor_redirect
Stays-redirect source hdr = search ask_rules depth 8

pub Stays-reject : (hdr : Header) → Moves Stays (acceptor_reject hdr)
unfolding acceptor_reject
Stays-reject hdr = search ask_rules

pub Stays-accept : (hdr : Header) → Moves Stays (acceptor_accept hdr)
unfolding acceptor_accept
Stays-accept hdr = search ask_rules

Stays-promise : (hdr : Header) → Moves Stays (acceptor_promise hdr)
unfolding acceptor_promise
Stays-promise hdr = search ask_rules depth 8

pub Stays-ack_prepare : (source : ℕ) (hdr : Header) → Moves Stays (acceptor_ack_prepare source hdr)
unfolding acceptor_ack_prepare
Stays-ack_prepare source hdr = search (ask_rules, Stays-redirect, Stays-promise) depth 12

-- A write to an instance that is not committed, and then a handler.
pub Stays-write_bind :
    {A : Type 0} (n : ℕ) (f : Instance → Instance) (inst : Instance) (w : World) (k : M A)
    → instance_find n w.pax.ilist ≡ some inst
    → inst.pi_committed ≡ false
    → ((x : Instance) → inum_of x ≡ n → inum_of (f x) ≡ n)
    → Moves Stays k
    → Holds (Stays w) ((modify (write_instance n f) >>= λ _. k) w)
unfolding modify
Stays-write_bind n f inst w k e c num h = Holds-sorted w _ λ s.
    Holds-bind Stays-IsPath w (modify (write_instance n f)) (λ _. k)
      (Stays-write n f w num λ x ex cx. ground (arith, found_at n w.pax.ilist inst s e)) (λ _. h)

-- The number of what a search finds.
pub found_number :
    (n : ℕ) (l : List Instance) (i : Instance)
    → Increasing inum_of l
    → instance_find n l ≡ some i
    → inum_of i ≡ n
found_number n l i s e = get_at_key inum_of n l i (found_at n l i s e)

Stays-rejects_part : (val : Value) (k : Dkind) → Moves Stays (rejects_part val k)
unfolding rejects_part
Stays-rejects_part val dec_part = search stays_rules depth 10
Stays-rejects_part val _ = search stays_rules

accept_found :
    (hdr : Header) (val : Value) (inst : Instance) (w : World)
    → instance_find hdr.ph_inum w.pax.ilist ≡ some inst
    → (b : Bool) → inst.pi_committed ≡ b
    → Holds (Stays w) (accept_over hdr val inst w)
unfolding accept_over
accept_found hdr val inst w e true c =
    rw c ((Moves-bind Stays-IsPath (assert _) _ (search stays_rules) (λ _. Stays-accept hdr)).run w)
accept_found hdr val inst w e false c = Holds-sorted w _ λ s.
    let p = found_number hdr.ph_inum w.pax.ilist inst s e in
    elim (Bool-cases (is_ge (ballot_compare hdr.ph_ballot inst.pi_hdr.ph_ballot))) [
      | inl g ↦
          rw (c, g)
            (Stays-write_bind (inum_of inst) _ inst w (acceptor_accept hdr)
              (subst (λ m. instance_find m w.pax.ilist ≡ some inst) (sym p) e) c (λ x h. sym p)
              (Stays-accept hdr))
      | inr g ↦ rw (c, g) ((Moves-pure Stays-IsPath 0).run w)
    ]

-- A choice by what a search of the current ilist finds.
pub Stays-find_case :
    {B : Type 0} (n : ℕ) (a : M B) (k : Instance → M B)
    → ((w : World) → instance_find n w.pax.ilist ≡ none → Holds (Stays w) (a w))
    → ((w : World) (i : Instance) → instance_find n w.pax.ilist ≡ some i → Holds (Stays w) (k i w))
    → Moves Stays (gets (λ s. s) >>= λ pax. option_case (instance_find n pax.ilist) a k)
unfolding option_case
Stays-find_case n a k ha hk =
    Moves-gets-bind Stays-IsPath (λ s. s) _
      λ w. elim (Option-cases (instance_find n w.pax.ilist)) [
        | inl e ↦ rw (e, option_case) (ha w e)
        | inr (i, e) ↦ rw (e, option_case) (hk w i e)
      ]

pub Stays-insert_bind :
    {A : Type 0} (inst : Instance) (k : M A) (w : World)
    → Moves Stays k
    → Holds (Stays w) ((modify (instance_insert_and_upstart inst) >>= λ _. k) w)
Stays-insert_bind inst k w h =
    (Moves-bind Stays-IsPath _ (λ _. k) (Stays-insert inst) (λ _. h)).run w

Stays-accept_decree : (hdr : Header) (val : Value) → Moves Stays (accept_decree hdr val)
unfolding accept_decree
Stays-accept_decree hdr val =
    Stays-find_case hdr.ph_inum _ (accept_over hdr val)
      (λ w e. Stays-insert_bind (fresh_instance hdr val) (acceptor_accept hdr) w (Stays-accept hdr))
      (λ w i e. accept_found hdr val i w e i.pi_committed refl)

pub Stays-ack_decree : (hdr : Header) (o : Obj) → Moves Stays (acceptor_ack_decree hdr o)
unfolding acceptor_ack_decree
Stays-ack_decree hdr o =
    search (ask_rules, Stays-rejects_part, Stays-reject, Stays-accept_decree) depth 14

-- The value of a commit is written where nothing is committed.
value_Holds :
    (n : ℕ) (o : Obj) (w : World)
    → ((x : Instance) → get_at inum_of n w.pax.ilist ≡ some x → x.pi_committed ≡ false)
    → Holds (Stays w) (commit_value n o w)
unfolding commit_value ◌>>=◌ need modify
value_Holds n o w h = elim (Option-cases (paxos_value_unpack o)) [
  | inl e ↦ rw (e, need) tt
  | inr (val, e) ↦
      rw (e, need)
        (Holds-join Stays-IsPath w _ _
          (Stays-write n (λ i. record i { pi_val = val }) w (λ x p. p)
            (λ x ex cx. ground (arith, h x ex)))
          ((Stays-commit n).run _))
]

-- A first update, after which nothing is committed at the number.
pub then_value :
    (g : Session → Session) (n : ℕ) (o : Obj) (w : World)
    → (Increasing inum_of w.pax.ilist → Stays w (record w { pax = g w.pax }))
    → (Increasing inum_of w.pax.ilist
        → (x : Instance) → get_at inum_of n (g w.pax).ilist ≡ some x
        → x.pi_committed ≡ false)
    → Holds (Stays w) ((modify g >>= λ _. commit_value n o) w)
unfolding modify ◌>>=◌
then_value g n o w st h =
    Holds-sorted w _ λ s. Holds-join Stays-IsPath w _ _ (st s) (value_Holds n o _ (h s))

-- Nothing is committed at the number of an instance that has just been inserted.
pub inserted_fresh :
    (hdr : Header) (w : World)
    → instance_find hdr.ph_inum w.pax.ilist ≡ none
    → (o : Obj)
    → Holds (Stays w) (
        (modify (instance_insert_and_upstart (record zero_instance { pi_hdr = hdr })) >>= λ _.
        commit_value hdr.ph_inum o)
          w)
unfolding instance_insert_and_upstart instance_insert instance_find modify
inserted_fresh hdr w e o =
    let new : Instance = record zero_instance { pi_hdr = hdr } in
    then_value (instance_insert_and_upstart new) hdr.ph_inum o w (λ s. (Stays-insert new).run w)
      (λ s x ex. ground (
        arith,
        get_at-insert_rev_new inum_of new w.pax.ilist s,
        find_rev-eq-get_at inum_of hdr.ph_inum w.pax.ilist s,
      ))

Stays-commit_value :
    (n : ℕ) (o : Obj) (inst : Instance) (w : World)
    → instance_find n w.pax.ilist ≡ some inst
    → inst.pi_committed ≡ false
    → Holds (Stays w) (commit_value (inum_of inst) o w)
Stays-commit_value n o inst w e c = Holds-sorted w _ λ s.
    value_Holds (inum_of inst) o w
      (λ x ex. ground (arith, found_at n w.pax.ilist inst s e, found_number n w.pax.ilist inst s e))

pub Stays-ack_commit : (hdr : Header) (o : Obj) → Moves Stays (acceptor_ack_commit hdr o)
unfolding acceptor_ack_commit
Stays-ack_commit hdr o =
    Stays-find_case hdr.ph_inum _ _ (λ w e. inserted_fresh hdr w e o)
      (λ w i e. elim (Bool-cases i.pi_committed) [
        | inl c ↦ rw c ((Moves-pure Stays-IsPath 0).run w)
        | inr c ↦ rw c (Stays-commit_value hdr.ph_inum o i w e c)
      ])

recommit_found :
    (hdr : Header) (o : Obj) (inst : Instance) (w : World)
    → instance_find hdr.ph_inum w.pax.ilist ≡ some inst
    → inst.pi_committed ≡ false
    → Holds (Stays w) (
        (modify (write_instance inst.pi_hdr.ph_inum (λ i. record i { pi_hdr = hdr })) >>= λ _.
        commit_value hdr.ph_inum o)
          w)
unfolding write_instance
recommit_found hdr o inst w e c = Holds-sorted w _ λ s.
    let p = found_number hdr.ph_inum w.pax.ilist inst s e in
    let g = found_at hdr.ph_inum w.pax.ilist inst s e in
    rw p (
      then_value (write_instance hdr.ph_inum (λ i. record i { pi_hdr = hdr })) hdr.ph_inum o w
        (λ s'. Stays-write hdr.ph_inum _ w (λ x h. refl) (λ x ex cx. ground (arith, g)))
        (λ s' x ex. ground (
          arith,
          get_at-set_at_self inum_of hdr.ph_inum (λ i. record i { pi_hdr = hdr }) w.pax.ilist inst
              (λ x h. refl) g,
        )))

pub Stays-ack_recommit : (hdr : Header) (o : Obj) → Moves Stays (acceptor_ack_recommit hdr o)
unfolding acceptor_ack_recommit
Stays-ack_recommit hdr o =
    Stays-find_case hdr.ph_inum _ _ (λ w e. inserted_fresh hdr w e o)
      (λ w i e. elim (Bool-cases i.pi_committed) [
        | inl c ↦ rw c ((Moves-pure Stays-IsPath 0).run w)
        | inr c ↦ rw c (recommit_found hdr o i w e c)
      ])
