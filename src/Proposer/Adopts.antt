-- ===== src/Proposer/Adopts.antt =====
-- Which values a proposer adopts from promises (proposer_ack_promise of
-- libmotmot/src/paxos_proposer.c).
use motmot.Base.{
  ℕ, ◌≡◌, ◌<◌, refl, sym, ap, subst, ◌∙◌, ◌⊎◌, inl, inr, Bool, true, false, not, ◌&&◌, ltb,
  Ordering, none, some, List, [], ◌∷◌, arith, if◌then◌else◌,
}
use motmot.Core.{ballot_compare}
use motmot.Session.{Instance, Session, Ref, null, list_head, at, off, scratch}
use motmot.SessionLocal.{inum_of, get_at, set_at, instance_insert}
use motmot.SessionLocal.Tables.{Increasing}
use motmot.Msgpack.{Obj, Objs, nil, cons}
use motmot.Codec.{paxos_instance_unpack}
use motmot.Util.{write_instance, deref_instance}
use motmot.Learn.{nodes_from}
use motmot.Proposer.{
  glb_loop, glb_from_ref, get_instance_glb, insert_after_and_upstart, insert_vote, with_refs,
  unpacked, left_off, switch_in, promise_vote, promise_votes,
}
use motmot.Stable.Votes.{replaced}
use motmot.Proposer.Glb.{insert_after-eq-instance_insert, glb_fresh, glb_loop-nodes_from}
use motmot.Exec.{
  M, World, Fault, off_list, done, need, gets, modify, pure, dangling, null_deref, assert_failed,
  ◌>>=◌, ◌>>◌,
}
use motmot.Exec.Returns.{
  bind-done, gets-done, modify-done, if-done, need-done, need-keeps, pure-done, fail-done,
}
use motmot.Proposer.Raises.{
  Adopts, ballot, Adopts-none, Adopts-join, Adopts-insert, Adopts-switch, Adopts-same,
}

-- What a search that returns has found.
glb_from-done :
    (e : Fault) (iter : Ref) (inum : ℕ) (w v : World) (it : Instance)
    → Increasing inum_of w.pax.ilist
    → glb_from_ref e iter inum w ≡ done it v
    → (v ≡ w) × (glb_loop inum none w.pax.ilist ≡ some it)
unfolding glb_from_ref deref_instance
glb_from-done f null inum w v it s e = absurd (fail-done null_deref w v it e)
glb_from-done f list_head inum w v it s e = absurd (fail-done dangling w v it e)
glb_from-done f (off i r) inum w v it s e = elim (if-done (ltb inum (inum_of i)) _ _ w v e) [
  | inl (b, k) ↦ absurd (fail-done f w v it k)
  | inr (b, k) ↦ glb_from-done off_list r inum w v it s k
]
glb_from-done f (scratch i r) inum w v it s e = elim (if-done (ltb inum (inum_of i)) _ _ w v e) [
  | inl (b, k) ↦ absurd (fail-done f w v it k)
  | inr (b, k) ↦ glb_from-done off_list r inum w v it s k
]
glb_from-done f (at n) inum w v it s e =
    let (x, u, e1, f1) =
      bind-done (gets (λ t. t.ilist) >>= λ l. need dangling (get_at inum_of n l)) _ w v it e in
    let q = need-keeps _ _ w u x (gets-done (λ t. t.ilist) _ w u e1) in
    let g = gets-done (λ t. nodes_from n t.ilist) _ u v f1 in
    (
      need-keeps _ _ u v it g ∙ q,
      glb_loop-nodes_from n inum it w.pax.ilist s (
          subst (λ z. glb_loop inum none (nodes_from n z.pax.ilist) ≡ some it) q
            (need-done _ _ u v it g)),
    )

glb-done :
    (iter : Ref) (inum : ℕ) (w v : World) (it : Instance)
    → Increasing inum_of w.pax.ilist
    → get_instance_glb iter inum w ≡ done it v
    → (v ≡ w) × (glb_loop inum none w.pax.ilist ≡ some it)
unfolding get_instance_glb
glb-done iter inum w v it s e = glb_from-done assert_failed iter inum w v it s e

-- The test for a switch.
abbrev pub switches : Bool → Ordering → Bool
switches committed order =
    not committed && (elim order [ Ordering.gt ↦ true | Ordering.lt ↦ false | Ordering.eq ↦ false ])

switches-true : (c : Bool) (o : Ordering) → switches c o ≡ true → (c ≡ false) × (o ≡ Ordering.gt)
switches-true true o e = ground arith
switches-true false Ordering.gt e = (refl, refl)
switches-true false Ordering.lt e = ground arith
switches-true false Ordering.eq e = ground arith

switches-false :
    (c : Bool) (o : Ordering) → switches c o ≡ false → (c ≡ true) ⊎ (o ≡ Ordering.gt → ⊥)
switches-false true o e = inl refl
switches-false false Ordering.gt e = ground arith
switches-false false Ordering.lt e = inr (λ h. ground arith)
switches-false false Ordering.eq e = inr (λ h. ground arith)

-- The body of a round, once the search has returned.
abbrev pub vote_step : Instance → Instance → M Ref
vote_step v it =
    if ltb it.pi_hdr.ph_inum v.pi_hdr.ph_inum
    then (do modify (insert_vote it.pi_hdr.ph_inum v); pure (at it.pi_hdr.ph_inum))
    else if switches it.pi_committed (ballot_compare v.pi_hdr.ph_ballot it.pi_hdr.ph_ballot)
    then (do modify (switch_in it v); pure (at it.pi_hdr.ph_inum))
    else pure (at it.pi_hdr.ph_inum)

inserted :
    (v it : Instance) (s : Session)
    → Increasing inum_of s.ilist
    → glb_loop (inum_of v) none s.ilist ≡ some it
    → inum_of it < inum_of v
    → (insert_vote (inum_of it) v s).ilist ≡ (instance_insert v s.ilist).0
unfolding insert_vote with_refs insert_after_and_upstart
inserted v it s o g h = insert_after-eq-instance_insert v it s.ilist o g h

switched :
    (v it : Instance) (s : Session)
    → (switch_in it v s).ilist ≡ set_at inum_of (inum_of v) (λ x. v) s.ilist
unfolding switch_in with_refs write_instance
switched v it s = refl

vote_step-Adopts :
    (v it : Instance) (w w' : World) (r : Ref)
    → Increasing inum_of w.pax.ilist
    → glb_loop (inum_of v) none w.pax.ilist ≡ some it
    → vote_step v it w ≡ done r w'
    → Adopts (v ∷ []) w.pax.ilist w'.pax.ilist
vote_step-Adopts v it w w' r s g e = elim (if-done (ltb (inum_of it) (inum_of v)) _ _ w w' e) [
  | inl (b, k) ↦
      let low : inum_of it < inum_of v = ground arith in
      let q = pure-done _ r _ w' (modify-done (insert_vote (inum_of it) v) _ w w' k) in
      subst (Adopts (v ∷ []) w.pax.ilist)
        (sym (inserted v it w.pax s g low) ∙ ap (λ z. z.pax.ilist) (sym q))
        (Adopts-insert v w.pax.ilist s (glb_fresh (inum_of v) it w.pax.ilist s g low))
  | inr (b, k) ↦
      let found = replaced v it w s g b in
      elim (if-done (switches it.pi_committed (ballot_compare (ballot v) (ballot it)))
        (modify (switch_in it v) >> pure (at (inum_of it))) (pure (at (inum_of it))) w w' k) [
          | inl (c, m) ↦
              let q = pure-done _ r _ w' (modify-done (switch_in it v) _ w w' m) in
              subst (Adopts (v ∷ []) w.pax.ilist)
                (sym (switched v it w.pax) ∙ ap (λ z. z.pax.ilist) (sym q))
                (Adopts-switch v it w.pax.ilist s found
                  (switches-true it.pi_committed (ballot_compare (ballot v) (ballot it)) c).0
                  (switches-true it.pi_committed (ballot_compare (ballot v) (ballot it)) c).1)
          | inr (c, m) ↦
              subst (Adopts (v ∷ []) w.pax.ilist)
                (ap (λ z. z.pax.ilist) (sym (pure-done _ r w w' m)))
                (Adopts-same v it w.pax.ilist s found
                  (switches-false it.pi_committed (ballot_compare (ballot v) (ballot it)) c))
        ]
]

pub promise_vote-Adopts :
    (iter : Ref) (v : Instance) (w w' : World) (r : Ref)
    → Increasing inum_of w.pax.ilist
    → promise_vote iter v w ≡ done r w'
    → Adopts (v ∷ []) w.pax.ilist w'.pax.ilist
unfolding promise_vote with_refs
promise_vote-Adopts iter v z w' r s e' =
    let w : World = record z { pax = with_refs (unpacked v) z.pax } in
    let e = modify-done (with_refs (unpacked v)) _ z w' e' in
    let (it, u, e1, f1) = bind-done (get_instance_glb iter (inum_of v)) (vote_step v) w w' r e in
    let (q, g) = glb-done iter (inum_of v) w u it s e1 in
    vote_step-Adopts v it w w' r s g (subst (λ z. vote_step v it z ≡ done r w') q f1)

-- A vote as the proposer takes it: uncommitted.
abbrev pub vote_of : Instance → Instance
vote_of v = record v { pi_committed = false; pi_cached = false; pi_learned = false }

-- The votes of a promise.
abbrev pub votes : Objs → List Instance
votes nil = []
votes (cons p ps) = elim (paxos_instance_unpack p) [
  | none ↦ votes ps
  | some v ↦ vote_of v ∷ votes ps
]

votes-cons :
    (p : Obj) (ps : Objs) (v : Instance)
    → paxos_instance_unpack p ≡ some v
    → votes (cons p ps) ≡ vote_of v ∷ votes ps
votes-cons p ps v e = rw (e, votes) refl

left_off-done :
    (w w' : World)
    → modify (with_refs left_off) w ≡ done tt w'
    → w' ≡ record w { pax = with_refs left_off w.pax }
unfolding modify pure
left_off-done w w' e = pure-done tt tt (record w { pax = with_refs left_off w.pax }) w' e

-- Where the loop over the votes of a promise returns, on a sorted ilist, and has not inserted after
-- or replaced a node that is off the ilist (where the model stops): the ilist is sorted; each
-- instance that was in it is still in it, or was not committed and has been replaced by one with
-- its number and a higher ballot; every instance that is new is one of the votes; and for each vote
-- there is an instance with its number that is committed, or whose ballot is not below the vote's.
pub promise_votes-adopted :
    (iter : Ref) (os : Objs) (w w' : World)
    → Increasing inum_of w.pax.ilist
    → promise_votes iter os w ≡ done tt w'
    → Adopts (votes os) w.pax.ilist w'.pax.ilist
unfolding promise_votes with_refs
promise_votes-adopted iter nil w w' s e =
    subst (λ z. Adopts [] w.pax.ilist z.pax.ilist) (sym (left_off-done w w' e))
      (Adopts-none w.pax.ilist s)
promise_votes-adopted iter (cons p ps) w w' s e =
    let (v, u, e1, f1) = bind-done (need assert_failed (paxos_instance_unpack p)) _ w w' tt e in
    let q = need-keeps _ _ w u v e1 in
    let (next, t, e2, f2) = bind-done (promise_vote iter (vote_of v)) _ u w' tt f1 in
    let one =
      promise_vote-Adopts iter (vote_of v) w t next s
        (subst (λ z. promise_vote iter (vote_of v) z ≡ done next t) q e2) in
    subst (λ l. Adopts l w.pax.ilist w'.pax.ilist)
      (sym (votes-cons p ps v (need-done _ _ w u v e1)))
      (Adopts-join (vote_of v) (votes ps) w.pax.ilist t.pax.ilist w'.pax.ilist one
        (promise_votes-adopted next ps t w' one.sorted f2))
