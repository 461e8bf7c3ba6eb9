-- ===== src/Acceptor/Accepts.antt =====
-- Which decrees an acceptor accepts (acceptor_ack_decree of libmotmot/src/paxos_acceptor.c).
use motmot.Base.{
  eq-of-==, ℕ, ◌≡◌, refl, sym, subst, ap, ◌∙◌, not, if◌then◌else◌, ◌==◌, Bool, true, false,
  Ordering, ◌⊎◌, inl, inr, Option, none, some, arith,
}
use motmot.Core.{
  Header, Dkind, dec_part, dec_null, dec_chat, dec_join, dec_kill, dec_other, Value, ballot_compare,
}
use motmot.Session.{Session, Instance, at}
use motmot.Msgpack.{Obj}
use motmot.SessionLocal.{inum_of, set_at, instance_find, instance_insert}
use motmot.Codec.{paxos_value_unpack}
use motmot.Util.{write_instance, instance_insert_and_upstart, proposer_paxid}
use motmot.Util.Quiet.{Quiet, Quiet-IsPath, quiet_rules, Quiet-proposer_paxid, Quiet-to_proposer}
use motmot.Objection.{acceptor_reject}
use motmot.Acceptor.{
  is_eq, is_ge, same_decree, fresh_instance, acceptor_accept, accept_over, accept_decree,
  rejects_part, acceptor_ack_decree,
}
use motmot.Exec.{World, M, done, Fault, need, assert, assert_failed, pure}
use motmot.Exec.Returns.{
  bind-done, gets-done, need-done, if-done, option_case-done, modify-done, assert-done, after,
}
use motmot.Exec.Moves.{Moves, Moves-assert, Moves-need, Moves-pure}

Quiet-accept : (hdr : Header) → Moves Quiet (acceptor_accept hdr)
unfolding acceptor_accept
Quiet-accept hdr = Quiet-to_proposer _

Quiet-reject : (hdr : Header) → Moves Quiet (acceptor_reject hdr)
unfolding acceptor_reject
Quiet-reject hdr = search Quiet-to_proposer

Quiet-pure : (n : ℕ) → Moves Quiet (pure n)
Quiet-pure n = Moves-pure Quiet-IsPath n

Quiet-need : {A : Type 0} (x : Fault) (o : Option A) → Moves Quiet (need x o)
Quiet-need x o = Moves-need Quiet-IsPath x o

Quiet-assert : (b : Bool) → Moves Quiet (assert b)
Quiet-assert b = Moves-assert Quiet-IsPath b

Quiet-rejects_part : (v : Value) (k : Dkind) → Moves Quiet (rejects_part v k)
unfolding rejects_part
Quiet-rejects_part v dec_part = search (quiet_rules) depth 8
Quiet-rejects_part v dec_null = search quiet_rules
Quiet-rejects_part v dec_chat = search quiet_rules
Quiet-rejects_part v dec_join = search quiet_rules
Quiet-rejects_part v dec_kill = search quiet_rules
Quiet-rejects_part v (dec_other n) = search quiet_rules

-- The instance that an acceptor takes where it had none.
abbrev pub taken : Header → Value → Instance
taken hdr val = record {
  pi_hdr = hdr;
  pi_committed = false;
  pi_cached = false;
  pi_learned = false;
  pi_votes = 0;
  pi_rejects = 0;
  pi_val = val;
}

-- How an acceptor's session changes when it takes a decree.
pub data Accepts (hdr : Header) (val : Value) (s : Session) : Session → Type 0 where
  inserted :
      instance_find hdr.ph_inum s.ilist ≡ none
      → Accepts hdr val s (record s {
        ilist = (instance_insert (taken hdr val) s.ilist).0;
        istart = if hdr.ph_inum == s.ihole then at hdr.ph_inum else s.istart;
      })
  replaced :
      (inst : Instance)
      → instance_find hdr.ph_inum s.ilist ≡ some inst
      → inst.pi_committed ≡ false
      → is_ge (ballot_compare hdr.ph_ballot inst.pi_hdr.ph_ballot) ≡ true
      → Accepts hdr val s (record s {
        ilist =
            set_at inum_of inst.pi_hdr.ph_inum
              (λ i. record i { pi_hdr = hdr; pi_val = val })
              s.ilist;
      })

-- A session that has not changed, or has taken the decree.
abbrev Taken : Header → Value → Session → Session → Type 0
Taken hdr val s s' = (s' ≡ s) ⊎ Accepts hdr val s s'

unchanged :
    {A : Type 0} (m : M A) (w v : World) (a : A) → Moves Quiet m → m w ≡ done a v → v.pax ≡ w.pax
unchanged m w v a h e = (after Quiet m w v a h e).same

same_ballot : (c : Ordering) → not (is_eq c) ≡ false → c ≡ Ordering.eq
same_ballot Ordering.eq e = refl
same_ballot Ordering.lt e = ground arith
same_ballot Ordering.gt e = ground arith

paxid-done : (w v : World) (p : ℕ) → proposer_paxid w ≡ done p v → w.pax.proposer ≡ some p
unfolding proposer_paxid
paxid-done w v p e = need-done _ w.pax.proposer w v p (gets-done (λ s. s.proposer) _ w v e)

accept_over-Taken :
    (hdr : Header) (val : Value) (inst : Instance) (w w' : World) (r : ℕ)
    → instance_find hdr.ph_inum w.pax.ilist ≡ some inst
    → accept_over hdr val inst w ≡ done r w'
    → Taken hdr val w.pax w'.pax
unfolding accept_over write_instance
accept_over-Taken hdr val inst w w' r f e = elim (if-done inst.pi_committed _ _ w w' e) [
  | inl (c, k) ↦
      let (_, v, e1, f1) = bind-done (assert (same_decree inst.pi_val val)) _ w w' r k in
      let q = unchanged _ w v _ (Quiet-assert _) e1 in
      inl (unchanged _ v w' r (Quiet-accept hdr) f1 ∙ q)
  | inr (c, k) ↦
      (elim (if-done (is_ge (ballot_compare hdr.ph_ballot inst.pi_hdr.ph_ballot)) _ _ w w' k) [
        | inl (g, m) ↦
            let n =
              modify-done
                (write_instance inst.pi_hdr.ph_inum (λ i. record i { pi_hdr = hdr; pi_val = val }))
                _ w w' m in
            inr (
              subst (Accepts hdr val w.pax) (sym (unchanged _ _ w' r (Quiet-accept hdr) n))
                (replaced inst f c g))
        | inr (g, m) ↦ inl (unchanged _ w w' r (Quiet-pure 0) m)
      ])
]

accept_decree-Taken :
    (hdr : Header) (val : Value) (w w' : World) (r : ℕ)
    → accept_decree hdr val w ≡ done r w'
    → Taken hdr val w.pax w'.pax
unfolding accept_decree instance_insert_and_upstart
accept_decree-Taken hdr val w w' r e =
    let e0 = gets-done (λ s. s) _ w w' e in
    elim (option_case-done (instance_find hdr.ph_inum w.pax.ilist) _ _ w w' e0) [
      | inl (f, k) ↦
          let n = modify-done (instance_insert_and_upstart (fresh_instance hdr val)) _ w w' k in
          inr (
            subst (Accepts hdr val w.pax) (sym (unchanged _ _ w' r (Quiet-accept hdr) n))
              (inserted f))
      | inr (inst, f, k) ↦ accept_over-Taken hdr val inst w w' r f k
    ]

-- An acceptor that has handled a decree either has its session as it was, or the decree's ballot was
-- its own, from the acceptor that it takes for the proposer, and it has taken the decree's value: as a
-- new instance, where it had none with the number, or over the value of an instance that was not
-- committed and whose ballot was not higher. Nothing else in the session has changed.
pub acceptor_ack_decree-accepts :
    (hdr : Header) (o : Obj) (w w' : World) (r : ℕ)
    → acceptor_ack_decree hdr o w ≡ done r w'
    → (w'.pax ≡ w.pax)
      ⊎ ((ballot_compare hdr.ph_ballot w.pax.ballot ≡ Ordering.eq)
          × (w.pax.proposer ≡ some w.pax.ballot.id)
          × (val : Value) × (paxos_value_unpack o ≡ some val)
          × Accepts hdr val w.pax w'.pax)
unfolding acceptor_ack_decree
acceptor_ack_decree-accepts hdr o w w' r e =
    elim (if-done (not (is_eq (ballot_compare hdr.ph_ballot w.pax.ballot))) _ _ w w'
      (gets-done (λ s. s) _ w w' e)) [
        | inl (b, k) ↦ inl (unchanged _ w w' r (Quiet-pure 0) k)
        | inr (b, k) ↦
            let (p, v1, e1, k1) = bind-done proposer_paxid _ w w' r k in
            let (a, v2, e2, k2) = bind-done (assert (p == w.pax.ballot.id)) _ v1 w' r k1 in
            let (val, v3, e3, k3) =
              bind-done (need assert_failed (paxos_value_unpack o)) _ v2 w' r k2 in
            let (rejects, v4, e4, k4) = bind-done (rejects_part val val.pv_dkind) _ v3 w' r k3 in
            let q =
              unchanged _ v3 v4 rejects (Quiet-rejects_part val val.pv_dkind) e4
              ∙ unchanged _ v2 v3 val (Quiet-need _ _) e3
              ∙ unchanged _ v1 v2 a (Quiet-assert _) e2
              ∙ unchanged _ w v1 p Quiet-proposer_paxid e1 in
            elim (if-done rejects _ _ v4 w' k4) [
              | inl (c, k5) ↦ inl (unchanged _ v4 w' r (Quiet-reject hdr) k5 ∙ q)
              | inr (c, k5) ↦
                  let same =
                    subst (λ s. Taken hdr val s w'.pax) q
                      (accept_decree-Taken hdr val v4 w' r k5) in
                  let leader =
                    paxid-done w v1 p e1
                    ∙ ap some (
                        eq-of-== p w.pax.ballot.id
                          (assert-done (p == w.pax.ballot.id) v1 v2 a e2)) in
                  elim same [
                    | inl h ↦ inl h
                    | inr h ↦ inr (
                      same_ballot (ballot_compare hdr.ph_ballot w.pax.ballot) b,
                      leader,
                      val,
                      need-done _ _ v2 v3 val e3,
                      h,
                    )
                  ]
            ]
      ]
