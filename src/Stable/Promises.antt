-- ===== src/Stable/Promises.antt =====
-- The handler of promises (paxos_proposer.c), under the relation of the parent module.
use motmot.Base.{
  ℕ, zero, suc, ◌≡◌, refl, sym, subst, Bool, true, false, not, List, [], ◌∷◌, none, some, arith,
  ◌==◌, ◌<◌, ltb, inc32, inl, inr, Option-cases, if◌then◌else◌, get_last?,
}
use motmot.Core.{Header}
use motmot.Session.{Instance, Session, Prep, Ref, at}
use motmot.SessionLocal.{inum_of, get_at, instance_insert, instance_init_metadata}
use motmot.SessionLocal.Tables.{Increasing, get_at-insert_rev_new}
use motmot.Msgpack.{Obj}
use motmot.Util.{err_ret, header_init, write_instance, instance_insert_and_upstart}
use motmot.Proposer.{
  glb_loop, insert_after_and_upstart, redecreed, redecree, insert_null, null_instance,
  redecree_from, decree_deferred, finish_prepare, proposer_ack_promise,
}
use motmot.Proposer.Glb.{glb_fresh, glb_loop-get_at}
use motmot.Exec.{M, World, gets, modify, need, pure, dangling, ◌>>=◌, ◌>>◌}
use motmot.Exec.Moves.{Moves, Holds, Moves-bind, Moves-pure, Moves-if, Holds-bind, Holds-join}
use motmot.Stable.{Stays, Stays-IsPath, Stays-modify, Stays-write}
use motmot.Stable.Sends.{ask_rules, Stays-err_ret, Stays-deref_instance}
use motmot.Stable.Decrees.{Stays-decree}
use motmot.Stable.Votes.{glb_Holds, insert_after-same, inserted_Stays, Stays-promise_votes}

redecree_write :
    (inum : ℕ) (i : Instance) (w : World)
    → get_at inum_of inum w.pax.ilist ≡ some i
    → i.pi_committed ≡ false
    → Holds (Stays w) (modify (write_instance inum (redecreed w.pax)) w)
unfolding modify redecreed header_init instance_init_metadata
redecree_write inum i w g c =
    Stays-write inum (redecreed w.pax) w (λ x h. h) (λ x e d. ground (arith, g, c, e, d))

-- An instance that is not committed may be decreed again.
redecree_Holds :
    (inum : ℕ) (i : Instance) (w : World)
    → get_at inum_of inum w.pax.ilist ≡ some i
    → i.pi_committed ≡ false
    → Holds (Stays w) (redecree inum w)
unfolding redecree ◌>>=◌ gets
redecree_Holds inum i w g c =
    Holds-bind Stays-IsPath w (modify (write_instance inum (redecreed w.pax))) _
      (redecree_write inum i w g c)
      (λ _. Moves-bind Stays-IsPath _ _ (Stays-deref_instance inum) λ inst. search ask_rules)

-- The world after a null decree has been put after the node `n`.
abbrev null_inserted : ℕ → ℕ → World → World
null_inserted n inum w =
    let s : Session = record w.pax { req_id = inc32 w.pax.req_id } in
    record w { pax = insert_after_and_upstart n (null_instance s inum) s }

null_Stays :
    (inum : ℕ) (it : Instance) (w : World)
    → Increasing inum_of w.pax.ilist
    → glb_loop inum none w.pax.ilist ≡ some it
    → inum_of it < inum
    → Stays w (null_inserted (inum_of it) inum w)
unfolding null_instance
null_Stays inum it w s g h =
    let t : Session = record w.pax { req_id = inc32 w.pax.req_id } in
    record { ext = (inserted_Stays (null_instance t inum) it (record w { pax = t }) s g h).ext }

pub insert_found :
    (inst : Instance) (t : Session)
    → Increasing inum_of t.ilist
    → get_at inum_of (inum_of inst) t.ilist ≡ none
    → get_at inum_of (inum_of inst) (instance_insert_and_upstart inst t).ilist ≡ some inst
unfolding instance_insert_and_upstart instance_insert
insert_found inst t s e = get_at-insert_rev_new inum_of inst t.ilist s e

-- It is new.
null_found :
    (inum : ℕ) (it : Instance) (t : Session)
    → Increasing inum_of t.ilist
    → glb_loop inum none t.ilist ≡ some it
    → inum_of it < inum
    → get_at inum_of inum (insert_after_and_upstart (inum_of it) (null_instance t inum) t).ilist
      ≡ some (null_instance t inum)
unfolding null_instance
null_found inum it t s g h =
    subst (λ p. get_at inum_of inum p.ilist ≡ some (null_instance t inum))
      (sym (insert_after-same (null_instance t inum) it t s g h))
      (insert_found (null_instance t inum) t s (glb_fresh inum it t.ilist s g h))

-- What is decreed again, and then the rest of the loop.
again_Holds :
    (inum : ℕ) (i : Instance) (w : World) (rest : M ℕ)
    → get_at inum_of inum w.pax.ilist ≡ some i
    → i.pi_committed ≡ false
    → Moves Stays rest
    → Holds (Stays w) (err_ret (redecree inum) rest w)
unfolding err_ret
again_Holds inum i w rest g c h =
    Holds-bind Stays-IsPath w (redecree inum) _ (redecree_Holds inum i w g c)
      (λ r. Moves-if Stays-IsPath (r == 0) _ _ (λ _. h) (λ _. Moves-pure Stays-IsPath r))

null_uncommitted : (t : Session) (inum : ℕ) → (null_instance t inum).pi_committed ≡ false
unfolding null_instance
null_uncommitted t inum = refl

null_Holds :
    (inum : ℕ) (it : Instance) (w : World) (rest : M ℕ)
    → Increasing inum_of w.pax.ilist
    → glb_loop inum none w.pax.ilist ≡ some it
    → inum_of it < inum
    → Moves Stays rest
    → Holds (Stays w) ((insert_null (inum_of it) inum >> err_ret (redecree inum) rest) w)
unfolding insert_null ◌>>=◌ gets modify
null_Holds inum it w rest s g h k =
    let t : Session = record w.pax { req_id = inc32 w.pax.req_id } in
    let v = null_inserted (inum_of it) inum w in
    Holds-join Stays-IsPath w v _ (null_Stays inum it w s g h) (
      again_Holds inum (null_instance t inum) v rest (null_found inum it t s g h)
        (null_uncommitted t inum) k)

last_Holds :
    (w : World) (k : Instance → M ℕ)
    → ((last : Instance) → Holds (Stays w) (k last w))
    → Holds (Stays w) ((gets (λ s. s.ilist) >>= λ l. need dangling (get_last? l) >>= k) w)
unfolding ◌>>=◌ gets need
last_Holds w k h = elim (Option-cases (get_last? w.pax.ilist)) [
  | inl e ↦ simp e tt
  | inr (last, e) ↦ simp e (h last)
]

round_Holds :
    (inum : ℕ) (it last : Instance) (w : World) (rest : ℕ → M ℕ)
    → Increasing inum_of w.pax.ilist
    → glb_loop inum none w.pax.ilist ≡ some it
    → ((n : ℕ) → Moves Stays (rest n))
    → (b c d : Bool) → ltb (inum_of it) inum ≡ b
    → (it.pi_committed ≡ d)
    → Holds (Stays w) (
        (if b
            then (if c then pure 0 else (do
              insert_null (inum_of it) inum
              err_ret (redecree inum) (rest (inum_of it))))
            else if not d
            then err_ret (redecree (inum_of it)) (rest (inum_of it))
            else rest (inum_of it))
          w)
round_Holds inum it last w rest s g h true true d e k = (Moves-pure Stays-IsPath 0).run w
round_Holds inum it last w rest s g h true false d e k =
    null_Holds inum it w (rest (inum_of it)) s g (ground arith) (h (inum_of it))
round_Holds inum it last w rest s g h false c false e k =
    again_Holds (inum_of it) it w (rest (inum_of it)) (glb_loop-get_at inum it w.pax.ilist s g) k
      (h (inum_of it))
round_Holds inum it last w rest s g h false c true e k = (h (inum_of it)).run w

Stays-redecree_from :
    (fuel : ℕ) (iter : Ref) (inum : ℕ) → Moves Stays (redecree_from fuel iter inum)
unfolding redecree_from
Stays-redecree_from zero iter inum = search ask_rules
Stays-redecree_from (suc fuel) iter inum = record {
  run = λ w. glb_Holds iter inum _ w λ it s g. last_Holds w _ λ last.
      round_Holds inum it last w _ s g (λ n. Stays-redecree_from fuel (at n) (inc32 inum)) _ _ _
        refl refl;
}

Stays-list_case :
    (l : List Instance) (n : M ℕ) (f : Instance → List Instance → M ℕ)
    → Moves Stays n
    → ((i : Instance) (rest : List Instance) → Moves Stays (f i rest))
    → Moves Stays (elim l [ [] ↦ n | inst ∷ rest ↦ f inst rest ])
Stays-list_case [] n f h k = h
Stays-list_case (i ∷ l) n f h k = k i l

Stays-undefer : (l : List Instance) → Moves Stays (modify (λ s. record s { idefer = l }))
Stays-undefer l = Stays-modify (λ s. record s { idefer = l }) (λ s. refl)

Stays-decree_deferred : (fuel : ℕ) → Moves Stays (decree_deferred fuel)
unfolding decree_deferred
Stays-decree_deferred zero =
    Moves-bind Stays-IsPath _ _ (search ask_rules)
      λ l. Stays-list_case l _ _ (search ask_rules) (λ i rest. search ask_rules)
Stays-decree_deferred (suc fuel) =
    let ih = Stays-decree_deferred fuel in
    Moves-bind Stays-IsPath _ _ (search ask_rules) λ l.
      Stays-list_case l _ _ (search ask_rules) λ i rest.
        Moves-bind Stays-IsPath _ _ (Stays-undefer rest) λ _. Stays-err_ret _ _ (Stays-decree i) ih

Stays-finish_prepare : (prep : Prep) → Moves Stays (finish_prepare prep)
unfolding finish_prepare
Stays-finish_prepare prep =
    search (ask_rules, Stays-err_ret, Stays-redecree_from, Stays-decree_deferred) depth 12

pub Stays-ack_promise : (hdr : Header) (o : Obj) → Moves Stays (proposer_ack_promise hdr o)
unfolding proposer_ack_promise
Stays-ack_promise hdr o = search (ask_rules, Stays-promise_votes, Stays-finish_prepare) depth 20
