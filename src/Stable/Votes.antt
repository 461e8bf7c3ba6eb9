-- ===== src/Stable/Votes.antt =====
-- The votes that a promise brings (paxos_proposer.c), under the relation of the parent module.
use motmot.Base.{
  ℕ, ◌≡◌, refl, sym, subst, ap, Bool, true, false, none, some, arith, ◌==◌, ◌<◌, ltb, inl, inr,
  Option-cases, Bool-cases, if◌then◌else◌,
}
use motmot.Session.{Instance, Session, Ref, null, list_head, at, off, scratch}
use motmot.SessionLocal.{inum_of, get_at}
use motmot.SessionLocal.Tables.{Increasing}
use motmot.Msgpack.{Objs, nil, cons}
use motmot.Util.{write_instance, instance_insert_and_upstart, deref_instance}
use motmot.Learn.{nodes_from}
use motmot.Proposer.{
  glb_loop, glb_from_ref, get_instance_glb, insert_after_and_upstart, insert_vote, with_refs,
  unpacked, left_off, switch_in, promise_vote, promise_votes,
}
use motmot.Proposer.Glb.{
  insert_after-eq-instance_insert, glb_loop-greatest, glb_loop-get_at, glb_loop-nodes_from,
}
use motmot.Exec.{
  M, World, Fault, assert_failed, off_list, gets, modify, need, fail, pure, ◌>>=◌, ◌>>◌,
}
use motmot.Exec.Moves.{Moves, Holds, Moves-bind}
use motmot.Stable.{Stays, Stays-IsPath, Stays-write, Stays-insert, Holds-sorted}
use motmot.Stable.Sends.{ask_rules}

-- What follows a search may use what was found.
glb_from_Holds :
    {A : Type 0} (e : Fault) (iter : Ref) (inum : ℕ) (k : Instance → M A) (w : World)
    → ((it : Instance)
        → Increasing inum_of w.pax.ilist
        → glb_loop inum none w.pax.ilist ≡ some it
        → Holds (Stays w) (k it w))
    → Holds (Stays w) ((glb_from_ref e iter inum >>= k) w)
unfolding glb_from_ref deref_instance ◌>>=◌ gets need fail
glb_from_Holds e null inum k w h = tt
glb_from_Holds e list_head inum k w h = tt
glb_from_Holds e (off i r) inum k w h = elim (Bool-cases (ltb inum i.pi_hdr.ph_inum)) [
  | inl b ↦ simp b tt
  | inr b ↦ simp b (glb_from_Holds off_list r inum k w h)
]
glb_from_Holds e (scratch i r) inum k w h = elim (Bool-cases (ltb inum i.pi_hdr.ph_inum)) [
  | inl b ↦ simp b tt
  | inr b ↦ simp b (glb_from_Holds off_list r inum k w h)
]
glb_from_Holds f (at n) inum k w h = elim (Option-cases (get_at inum_of n w.pax.ilist)) [
  | inl e ↦ simp e tt
  | inr (x, e) ↦ (elim (Option-cases (glb_loop inum none (nodes_from n w.pax.ilist))) [
    | inl g ↦ simp (e, g) tt
    | inr (it, g) ↦
        simp (e, g)
          (Holds-sorted w (k it w) λ s. h it s (glb_loop-nodes_from n inum it w.pax.ilist s g))
  ])
]

-- What follows a search for the greatest lower bound may use what was found.
pub glb_Holds :
    {A : Type 0} (iter : Ref) (inum : ℕ) (k : Instance → M A) (w : World)
    → ((it : Instance)
        → Increasing inum_of w.pax.ilist
        → glb_loop inum none w.pax.ilist ≡ some it
        → Holds (Stays w) (k it w))
    → Holds (Stays w) ((get_instance_glb iter inum >>= k) w)
unfolding get_instance_glb
glb_Holds iter inum k w h = glb_from_Holds assert_failed iter inum k w h

-- The insertion of a promised instance is that of the list factory.
pub insert_after-same :
    (inst it : Instance) (s : Session)
    → Increasing inum_of s.ilist
    → glb_loop (inum_of inst) none s.ilist ≡ some it
    → inum_of it < inum_of inst
    → insert_after_and_upstart (inum_of it) inst s ≡ instance_insert_and_upstart inst s
unfolding insert_after_and_upstart instance_insert_and_upstart
insert_after-same inst it s o g h =
    ap
      (λ l. record s {
        ilist = l;
        istart = if inst.pi_hdr.ph_inum == s.ihole then at inst.pi_hdr.ph_inum else s.istart;
      })
      (insert_after-eq-instance_insert inst it s.ilist o g h)

insertion_Stays :
    (inst : Instance) (w : World)
    → Stays w (record w { pax = instance_insert_and_upstart inst w.pax })
unfolding modify
insertion_Stays inst w = (Stays-insert inst).run w

pub inserted_Stays :
    (inst it : Instance) (w : World)
    → Increasing inum_of w.pax.ilist
    → glb_loop (inum_of inst) none w.pax.ilist ≡ some it
    → inum_of it < inum_of inst
    → Stays w (record w { pax = insert_after_and_upstart (inum_of it) inst w.pax })
inserted_Stays inst it w s g h =
    subst (λ p. Stays w (record w { pax = p })) (sym (insert_after-same inst it w.pax s g h))
      (insertion_Stays inst w)

-- The pointers are no part of what stays.
vote_Stays :
    (inst it : Instance) (w : World)
    → Stays w (record w { pax = insert_after_and_upstart (inum_of it) inst w.pax })
    → Stays w (record w { pax = insert_vote (inum_of it) inst w.pax })
unfolding insert_vote with_refs
vote_Stays inst it w h = record { ext = h.ext }

Stays-with_refs : (f : Ref → Ref) → Moves Stays (modify (with_refs f))
unfolding with_refs
Stays-with_refs f = search ask_rules

-- The lower bound of a promised instance that is not below it is the instance that it replaces.
pub replaced :
    (inst it : Instance) (w : World)
    → Increasing inum_of w.pax.ilist
    → glb_loop (inum_of inst) none w.pax.ilist ≡ some it
    → ltb (inum_of it) (inum_of inst) ≡ false
    → get_at inum_of (inum_of inst) w.pax.ilist ≡ some it
replaced inst it w s g h =
    let low = (glb_loop-greatest (inum_of inst) it w.pax.ilist s g).0 in
    let same : inum_of it ≡ inum_of inst = ground arith in
    subst (λ n. get_at inum_of n w.pax.ilist ≡ some it) same
      (glb_loop-get_at (inum_of inst) it w.pax.ilist s g)

switch_Stays :
    (inst it : Instance) (w : World)
    → get_at inum_of (inum_of inst) w.pax.ilist ≡ some it
    → it.pi_committed ≡ false
    → Stays w (record w { pax = switch_in it inst w.pax })
unfolding switch_in with_refs write_instance
switch_Stays inst it w g c = record {
  ext =
      (Stays-write (inum_of inst) (λ _. inst) w (λ x h. refl)
        (λ x e d. ground (arith, g, c, e, d))).ext;
}

vote_Holds :
    (inst it : Instance) (w : World)
    → Increasing inum_of w.pax.ilist
    → glb_loop (inum_of inst) none w.pax.ilist ≡ some it
    → (b c : Bool) → ltb (inum_of it) (inum_of inst) ≡ b
    → (c ≡ true → it.pi_committed ≡ false)
    → Holds (Stays w) (
        (if b
            then (do modify (insert_vote it.pi_hdr.ph_inum inst); pure (at it.pi_hdr.ph_inum))
            else if c
            then (do modify (switch_in it inst); pure (at it.pi_hdr.ph_inum))
            else pure (at it.pi_hdr.ph_inum))
          w)
unfolding ◌>>=◌ modify pure
vote_Holds inst it w s g true c e h =
    vote_Stays inst it w (inserted_Stays inst it w s g (ground arith))
vote_Holds inst it w s g false true e h = switch_Stays inst it w (replaced inst it w s g e) (h refl)
vote_Holds inst it w s g false false e h = Stays-IsPath.stay w

Stays-promise_vote : (iter : Ref) (inst : Instance) → Moves Stays (promise_vote iter inst)
unfolding promise_vote
Stays-promise_vote iter inst = Moves-bind Stays-IsPath _ _ (Stays-with_refs (unpacked inst)) λ _.
    record {
      run = λ w.
          glb_Holds iter (inum_of inst) _ w
            λ it s g. vote_Holds inst it w s g _ _ refl (λ c. ground arith);
    }

pub Stays-promise_votes : (iter : Ref) (os : Objs) → Moves Stays (promise_votes iter os)
unfolding promise_votes
Stays-promise_votes iter nil = Stays-with_refs left_off
Stays-promise_votes iter (cons p ps) = Moves-bind Stays-IsPath _ _ (search ask_rules) λ vote.
    Moves-bind Stays-IsPath _ _ (Stays-promise_vote iter _) λ iter'. Stays-promise_votes iter' ps
