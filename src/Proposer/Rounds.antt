-- ===== src/Proposer/Rounds.antt =====
-- The rounds of the loop of proposer_ack_promise (libmotmot/src/paxos_proposer.c) that decrees again.
use motmot.Base.{
  ℕ, zero, suc, ◌+◌, ◌≤◌, ◌<◌, ◌≡◌, ◌≢◌, refl, Bool, true, false, not, List, [], ◌∷◌, Option, none,
  some, arith, ◌==◌, ltb, leb, All, inc32, inc32_lem, u32_mod, inl, inr, Bool-cases, Option-cases,
  if◌then◌else◌, get_last?,
}
use motmot.Session.{Acceptor, Instance, Session, Ref, null, list_head, at, off, scratch}
use motmot.Msgpack.{Tok}
use motmot.SessionLocal.{inum_of, get_at, instance_init_metadata}
use motmot.SessionLocal.Tables.{Increasing}
use motmot.Util.{
  err_ret, header_init, write_instance, deref_instance, paxos_broadcast, paxos_broadcast_instance,
  broadcast_to, err_accum, paxos_send, paxos_peer_send,
}
use motmot.Util.Quorum.{last_highest, last_some, last_All}
use motmot.Util.Quiet.{
  Quiet, Holds-Quiet, quiet_rules, Quiet-deref_instance, Quiet-broadcast_instance,
}
use motmot.Learn.{nodes_from}
use motmot.Proposer.{
  glb_loop, glb_from_ref, get_instance_glb, insert_after_and_upstart, null_instance, redecreed,
  redecree, insert_null, redecree_from, redecree_fuel,
}
use motmot.Proposer.Glb.{glb_loop-greatest, glb_loop-get_at, glb_loop-nodes_from}
use motmot.Exec.{
  M, World, Fault, fault, out_of_fuel, assert_failed, off_list, dangling, gets, modify, need, fail,
  pure, ◌>>=◌, ◌>>◌,
}
use motmot.Exec.Moves.{Holds, Moves}
use motmot.Exec.Fuel.{Fueled, Fueled-ne, Fueled-bind, Genuine, Enough, enough_rules}
use motmot.Proposer.Ends.{last_found, EndsAt, EndsAt-set_at, EndsAt-insert_after}

Quiet-again : (inum : ℕ) → Moves Quiet (deref_instance inum >>= paxos_broadcast_instance)
Quiet-again inum = search (quiet_rules, Quiet-deref_instance, Quiet-broadcast_instance) depth 8

redecree-EndsAt :
    (m inum : ℕ) (w : World)
    → EndsAt m w.pax.ilist
    → Holds (λ v. EndsAt m v.pax.ilist) (redecree inum w)
unfolding redecree ◌>>=◌ gets modify write_instance redecreed header_init instance_init_metadata
redecree-EndsAt m inum w e =
    let v : World = record w { pax = write_instance inum (redecreed w.pax) w.pax } in
    Holds-Quiet (λ s. EndsAt m s.ilist) v _
      (EndsAt-set_at m inum (redecreed w.pax) w.pax.ilist (λ x. refl) e) ((Quiet-again inum).run v)

Enough-peer_send : (p : Option ℕ) (py : List Tok) → Enough (paxos_peer_send p py)
unfolding paxos_peer_send
Enough-peer_send none py = search enough_rules
Enough-peer_send (some p) py = search enough_rules

Enough-send : (acc : Acceptor) (py : List Tok) → Enough (paxos_send acc py)
unfolding paxos_send
Enough-send acc py = Enough-peer_send acc.pa_peer py

Enough-broadcast_to : (py : List Tok) (r : ℕ) (l : List Acceptor) → Enough (broadcast_to py r l)
unfolding broadcast_to err_accum
Enough-broadcast_to py r [] = search enough_rules
Enough-broadcast_to py r (acc ∷ l) =
    let ih = λ (n : ℕ). Enough-broadcast_to py n l in search (enough_rules, Enough-send, ih) depth 8

Enough-redecree : (inum : ℕ) → Enough (redecree inum)
unfolding redecree deref_instance paxos_broadcast_instance paxos_broadcast
Enough-redecree inum = search (enough_rules, Enough-broadcast_to) depth 12

-- What follows a search for the greatest lower bound.
glb_from_Fueled :
    {A : Type 0} (e : Fault) (iter : Ref) (inum : ℕ) (k : Instance → M A) (w : World)
    → Genuine e
    → Increasing inum_of w.pax.ilist
    → ((it : Instance) → glb_loop inum none w.pax.ilist ≡ some it → Fueled (k it w))
    → Fueled ((glb_from_ref e iter inum >>= k) w)
unfolding glb_from_ref deref_instance ◌>>=◌ gets need fail
glb_from_Fueled e null inum k w g s h = tt
glb_from_Fueled e list_head inum k w g s h = tt
glb_from_Fueled e (off i r) inum k w g s h = elim (Bool-cases (ltb inum i.pi_hdr.ph_inum)) [
  | inl b ↦ simp b g
  | inr b ↦ simp b (glb_from_Fueled off_list r inum k w tt s h)
]
glb_from_Fueled e (scratch i r) inum k w g s h = elim (Bool-cases (ltb inum i.pi_hdr.ph_inum)) [
  | inl b ↦ simp b g
  | inr b ↦ simp b (glb_from_Fueled off_list r inum k w tt s h)
]
glb_from_Fueled f (at n) inum k w m s h = elim (Option-cases (get_at inum_of n w.pax.ilist)) [
  | inl e ↦ simp e tt
  | inr (x, e) ↦ (elim (Option-cases (glb_loop inum none (nodes_from n w.pax.ilist))) [
    | inl g ↦ simp (e, g) m
    | inr (it, g) ↦ simp (e, g) (h it (glb_loop-nodes_from n inum it w.pax.ilist s g))
  ])
]

glb_Fueled :
    {A : Type 0} (iter : Ref) (inum : ℕ) (k : Instance → M A) (w : World)
    → Increasing inum_of w.pax.ilist
    → ((it : Instance) → glb_loop inum none w.pax.ilist ≡ some it → Fueled (k it w))
    → Fueled ((get_instance_glb iter inum >>= k) w)
unfolding get_instance_glb
glb_Fueled iter inum k w s h = glb_from_Fueled assert_failed iter inum k w tt s h

either_Fueled :
    (b : Bool) (r : ℕ) (rest : M ℕ) (v : World)
    → Fueled (rest v)
    → Fueled ((if b then rest else pure r) v)
unfolding pure
either_Fueled true r rest v h = h
either_Fueled false r rest v h = tt

-- What is decreed again, and then a rest that has enough fuel.
again_Fueled :
    (m inum : ℕ) (w : World) (rest : M ℕ)
    → EndsAt m w.pax.ilist
    → ((v : World) → EndsAt m v.pax.ilist → Fueled (rest v))
    → Fueled (err_ret (redecree inum) rest w)
unfolding err_ret
again_Fueled m inum w rest e h =
    Fueled-bind (λ v. EndsAt m v.pax.ilist) (redecree inum) _ w ((Enough-redecree inum).run w)
      (redecree-EndsAt m inum w e) (λ r v f. either_Fueled (r == 0) r rest v (h v f))

null_Fueled :
    (m inum : ℕ) (it : Instance) (w : World) (rest : M ℕ)
    → EndsAt m w.pax.ilist
    → glb_loop inum none w.pax.ilist ≡ some it
    → inum_of it < inum
    → inum_of it ≢ m
    → ((v : World) → EndsAt m v.pax.ilist → Fueled (rest v))
    → Fueled ((insert_null (inum_of it) inum >> err_ret (redecree inum) rest) w)
unfolding insert_null ◌>>=◌ gets modify insert_after_and_upstart null_instance
null_Fueled m inum it w rest e g h d k =
    let t : Session = record w.pax { req_id = inc32 w.pax.req_id } in
    let v : World = record w {
      pax = insert_after_and_upstart (inum_of it) (null_instance t inum) t;
    } in
    again_Fueled m inum v rest (EndsAt-insert_after m (null_instance t inum) it w.pax.ilist e g h d)
      k

-- The lower bound of a number above the last instance's is the last instance.
below_end :
    (m inum : ℕ) (it : Instance) (l : List Instance)
    → EndsAt m l
    → glb_loop inum none l ≡ some it
    → inum_of it ≢ m
    → inum ≤ m
below_end m inum it l e g d = elim (Bool-cases (leb inum m)) [
  | inl b ↦ ground arith
  | inr b ↦
      let found = last_found l e.last e.sorted e.at_end in
      let (low, top) = glb_loop-greatest inum it l e.sorted g in
      let up = top (inum_of e.last) e.last found (ground (arith, e.number)) in
      let under =
        last_highest l it e.last (inum_of it) e.sorted e.at_end
          (glb_loop-get_at inum it l e.sorted g) in
      absurd (d (omega (arith, up, under, e.number)))
]

reached :
    (m inum : ℕ) (it : Instance) (l : List Instance)
    → EndsAt m l
    → glb_loop inum none l ≡ some it
    → ltb (inum_of it) inum ≡ false
    → inum ≤ m
reached m inum it l e g p =
    let under =
      last_highest l it e.last (inum_of it) e.sorted e.at_end
        (glb_loop-get_at inum it l e.sorted g) in
    ground (arith, under, e.number)

round_Fueled :
    (m inum : ℕ) (it : Instance) (w : World) (rest : M ℕ) (b c d : Bool)
    → EndsAt m w.pax.ilist
    → glb_loop inum none w.pax.ilist ≡ some it
    → (inum ≤ m → (v : World) → EndsAt m v.pax.ilist → Fueled (rest v))
    → ltb (inum_of it) inum ≡ b
    → (inum_of it == m) ≡ c
    → Fueled (
        (if b
            then (if c
                then pure 0
                else (do insert_null (inum_of it) inum; err_ret (redecree inum) rest))
            else if not d
            then err_ret (redecree (inum_of it)) rest
            else rest)
          w)
unfolding pure
round_Fueled m inum it w rest true true d e g h p q = tt
round_Fueled m inum it w rest true false d e g h p q =
    let ne : inum_of it ≢ m = λ r. ground arith in
    null_Fueled m inum it w rest e g (ground arith) ne (h (below_end m inum it w.pax.ilist e g ne))
round_Fueled m inum it w rest false c false e g h p q =
    again_Fueled m (inum_of it) w rest e (h (reached m inum it w.pax.ilist e g p))
round_Fueled m inum it w rest false c true e g h p q = h (reached m inum it w.pax.ilist e g p) w e

-- What follows a read of the last instance's number.
last_Fueled :
    (m : ℕ) (w : World) (k : ℕ → M ℕ)
    → EndsAt m w.pax.ilist
    → Fueled (k m w)
    → Fueled
        ((gets (λ s. s.ilist) >>= λ l. need dangling (get_last? l) >>= λ last. k (inum_of last)) w)
unfolding ◌>>=◌ gets need
last_Fueled m w k e h = simp (e.at_end, e.number) h

redecree_from-Fueled :
    (m fuel : ℕ) (iter : Ref) (inum : ℕ) (w : World)
    → EndsAt m w.pax.ilist
    → m + 1 < u32_mod
    → 0 < fuel
    → m + 1 < inum + fuel
    → Fueled (redecree_from fuel iter inum w)
unfolding redecree_from
redecree_from-Fueled m zero iter inum w e u z f = absurd (omega arith)
redecree_from-Fueled m (suc fuel) iter inum w e u z f = glb_Fueled iter inum _ w e.sorted λ it g.
    last_Fueled m w _ e (
      round_Fueled m inum it w _ _ _ _ e g
        (λ low v ev.
          redecree_from-Fueled m fuel (at (inum_of it)) (inc32 inum) v ev u (omega arith)
            (omega (arith, inc32_lem inum (omega arith))))
        refl refl)

nothing_below :
    (inum : ℕ) (it : Instance) (l : List Instance)
    → get_last? l ≡ none
    → glb_loop inum none l ≡ some it
    → ⊥
unfolding glb_loop
nothing_below inum it [] e g = cc
nothing_below inum it (x ∷ l) e g = last_some x l e

empty_Fueled :
    (iter : Ref) (inum : ℕ) (w : World)
    → Increasing inum_of w.pax.ilist
    → get_last? w.pax.ilist ≡ none
    → Fueled (redecree_from 1 iter inum w)
unfolding redecree_from
empty_Fueled iter inum w s e =
    glb_Fueled iter inum _ w s λ it g. absurd (nothing_below inum it w.pax.ilist e g)

fuel_Fueled :
    (iter : Ref) (w : World)
    → Increasing inum_of w.pax.ilist
    → All (λ i. inum_of i + 1 < u32_mod) w.pax.ilist
    → Fueled (redecree_from (redecree_fuel w.pax) iter w.pax.ihole w)
unfolding redecree_fuel
fuel_Fueled iter w s b = elim (Option-cases (get_last? w.pax.ilist)) [
  | inl e ↦ rw (redecree_fuel, e) (empty_Fueled iter w.pax.ihole w s e)
  | inr (j, e) ↦
      let ends : EndsAt (inum_of j) w.pax.ilist = record {
        sorted = s;
        last = j;
        at_end = e;
        number = refl;
      } in
      rw (redecree_fuel, e)
        (redecree_from-Fueled (inum_of j) _ iter w.pax.ihole w ends (last_All w.pax.ilist j b e)
          (omega arith) (omega arith))
]

-- The fuel that the loop is given is enough: from the hole on, where the ilist is sorted and instance
-- numbers have not reached the end of `uint32_t`, the loop that decrees again never runs out of it,
-- wherever it starts.
pub redecree_from-enough_fuel :
    (iter : Ref) (w : World)
    → Increasing inum_of w.pax.ilist
    → All (λ i. inum_of i + 1 < u32_mod) w.pax.ilist
    → redecree_from (redecree_fuel w.pax) iter w.pax.ihole w ≢ fault out_of_fuel
redecree_from-enough_fuel iter w s b = Fueled-ne _ (fuel_Fueled iter w s b)
