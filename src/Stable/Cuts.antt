-- ===== src/Stable/Cuts.antt =====
-- The handlers that cut the ilist (paxos_sync.c).
use motmot.Base.{
  ℕ, ◌≡◌, refl, ◌⊎◌, inl, inr, Bool, true, false, not, some, List, arith, ◌==◌, Option-cases,
  if◌then◌else◌,
}
use motmot.Core.{Header, Paxop, op_last, op_truncate}
use motmot.Dispatch.{proposer_dispatch, acceptor_case, acceptor_dispatch, session_dispatch}
use motmot.Util.{is_proposer}
use motmot.Stable.{Stays}
use motmot.Stable.Dispatching.{
  truncates, Stays-proposer_dispatch, Stays-force_kill, Stays-acceptor_case,
}
use motmot.Session.{Instance, Request, Session}
use motmot.Msgpack.{Obj, Tok}
use motmot.Codec.{paxos_paxid_unpack}
use motmot.Util.{err_ret, paxos_broadcast}
use motmot.Util.Quiet.{Holds-Quiet, Holds-err_ret, Quiet-broadcast}
use motmot.Sync.{
  ilist_truncate_prefix, truncate, end_sync, proposer_truncate, ack_last, proposer_ack_last,
  acceptor_ack_truncate,
}
use motmot.Exec.{
  M, continue, assert_failed, null_deref, World, Outcome, done, ended, fault, gets, modify, need,
  assert, pure, ◌>>=◌, ◌>>◌,
}
use motmot.Exec.Moves.{Holds}

-- The ilist has been left alone, or has been cut at what is now the base.
abbrev Cut : List Instance → Session → Type 0
Cut l s =
    (s.ilist ≡ l)
    ⊎ ((rcache : List Request) × (s.ilist ≡ (ilist_truncate_prefix s.ibase l rcache).0))

abbrev pub Cuts : World → World → Type 0
Cuts u w = Cut u.pax.ilist w.pax

acceptor_ack_truncate-Cuts : (o : Obj) (w : World) → Holds (Cuts w) (acceptor_ack_truncate o w)
unfolding acceptor_ack_truncate ◌>>=◌ need modify pure truncate
acceptor_ack_truncate-Cuts o w = elim (Option-cases (paxos_paxid_unpack o)) [
  | inl e ↦ simp e tt
  | inr (b, e) ↦ simp e (inr (w.pax.rcache, refl))
]

end_sync-Cut :
    (l : List Instance) (v : World) → v.pax.ilist ≡ l → Holds (λ w. Cut l w.pax) (end_sync v)
unfolding end_sync ◌>>=◌ modify pure truncate
end_sync-Cut l v e = inr (v.pax.rcache, rw e refl)

-- The broadcast leaves the session alone, and an error in it ends the handler.
broadcast_Cut :
    (py : List Tok) (l : List Instance) (v : World)
    → v.pax.ilist ≡ l
    → Holds (λ w. Cut l w.pax) (err_ret (paxos_broadcast py) end_sync v)
broadcast_Cut py l v e =
    Holds-err_ret (λ w. Cut l w.pax) (λ w. w.pax.ilist ≡ l) (paxos_broadcast py) end_sync v
      (Holds-Quiet (λ s. s.ilist ≡ l) v _ e ((Quiet-broadcast py).run v)) (λ w h. inl h)
      (end_sync-Cut l)

asserted_Cut :
    (l : List Instance) (b : Bool) (k : M ℕ) (v : World)
    → Holds (λ w. Cut l w.pax) (k v)
    → Holds (λ w. Cut l w.pax) ((assert b >> k) v)
unfolding ◌>>=◌ assert
asserted_Cut l true k v h = h
asserted_Cut l false k v h = tt

proposer_truncate-Cuts :
    (hdr : Header) (l : List Instance) (w : World)
    → w.pax.ilist ≡ l
    → Holds (λ v. Cut l v.pax) (proposer_truncate hdr w)
unfolding proposer_truncate ◌>>=◌ gets need modify
proposer_truncate-Cuts hdr l w h = elim (Option-cases w.pax.sync) [
  | inl e ↦ simp e tt
  | inr (sy, e) ↦ simp e (asserted_Cut l _ _ _ (broadcast_Cut _ l _ h))
]

acked_Cut :
    (b : Bool) (hdr : Header) (l : List Instance) (w : World)
    → w.pax.ilist ≡ l
    → Holds (λ v. Cut l v.pax) ((if b then proposer_truncate hdr else pure 0) w)
unfolding pure
acked_Cut true hdr l w h = proposer_truncate-Cuts hdr l w h
acked_Cut false hdr l w h = inl h

last_Cut :
    (b : Bool) (hdr : Header) (o : Obj) (w : World)
    → Holds (Cuts w) (
        (if not b then pure 0 else (do
          last ← need assert_failed (paxos_paxid_unpack o)
          sy ← need null_deref w.pax.sync
          let acked = ack_last last sy
          modify (λ s. record s { sync = some acked })
          if acked.ps_acks == acked.ps_total then proposer_truncate hdr else pure 0))
          w)
unfolding ◌>>=◌ need modify pure
last_Cut false hdr o w = inl refl
last_Cut true hdr o w = elim (Option-cases (paxos_paxid_unpack o)) [
  | inl e ↦ simp e tt
  | inr (last, e) ↦ (elim (Option-cases w.pax.sync) [
    | inl f ↦ simp (e, f) tt
    | inr (sy, f) ↦ simp (e, f) (acked_Cut _ hdr w.pax.ilist _ refl)
  ])
]

proposer_ack_last-Cuts :
    (hdr : Header) (o : Obj) (w : World) → Holds (Cuts w) (proposer_ack_last hdr o w)
unfolding proposer_ack_last ◌>>=◌ gets
proposer_ack_last-Cuts hdr o w = last_Cut (hdr.ph_inum == w.pax.sync_id) hdr o w

-- What a message may do to the ilist.
abbrev pub Effect : World → World → Type 0
Effect u w = Stays u w ⊎ Cuts u w

stayed : (w : World) (r : Outcome ℕ) → Holds (Stays w) r → Holds (Effect w) r
stayed w (done a v) h = inl h
stayed w (ended v) h = tt
stayed w (fault e) h = tt

cut : (w : World) (r : Outcome ℕ) → Holds (Cuts w) r → Holds (Effect w) r
cut w (done a v) h = inr h
cut w (ended v) h = tt
cut w (fault e) h = tt

-- `return 0`, whatever the handler returned.
then_zero :
    (w : World) (r : Outcome ℕ)
    → Holds (Effect w) r
    → Holds (Effect w) (continue r (λ _. pure {A = ℕ} 0))
unfolding pure
then_zero w (done a v) h = h
then_zero w (ended v) h = tt
then_zero w (fault e) h = tt

proposer_Effect :
    (source : ℕ) (hdr : Header) (o : Obj) (op : Paxop) (b : Bool) (w : World)
    → truncates op ≡ b
    → Holds (Effect w) (proposer_dispatch source hdr o op w)
unfolding proposer_dispatch
proposer_Effect source hdr o op false w h =
    stayed w _ ((Stays-proposer_dispatch source hdr o op h).run w)
proposer_Effect source hdr o op_last true w h = cut w _ (proposer_ack_last-Cuts hdr o w)
proposer_Effect source hdr o op_truncate true w h = stayed w _ ((Stays-force_kill source).run w)
proposer_Effect source hdr o _ true w h = ground arith

acceptor_case-Effect :
    (source : ℕ) (hdr : Header) (o : Obj) (op : Paxop) (b : Bool) (w : World)
    → truncates op ≡ b
    → Holds (Effect w) (acceptor_case source hdr o op w)
unfolding acceptor_case pure
acceptor_case-Effect source hdr o op false w h =
    stayed w _ ((Stays-acceptor_case source hdr o op h).run w)
acceptor_case-Effect source hdr o op_last true w h = inr (inl refl)
acceptor_case-Effect source hdr o op_truncate true w h = cut w _ (acceptor_ack_truncate-Cuts o w)
acceptor_case-Effect source hdr o _ true w h = ground arith

acceptor_Effect :
    (source : ℕ) (hdr : Header) (o : Obj) (op : Paxop) (w : World)
    → Holds (Effect w) (acceptor_dispatch source hdr o op w)
unfolding acceptor_dispatch ◌>>=◌
acceptor_Effect source hdr o op w =
    then_zero w _ (acceptor_case-Effect source hdr o op (truncates op) w refl)

role_Effect :
    (source : ℕ) (hdr : Header) (o : Obj) (w : World) (b : Bool)
    → Holds (Effect w) (
        (if b
            then proposer_dispatch source hdr o hdr.ph_opcode
            else acceptor_dispatch source hdr o hdr.ph_opcode)
          w)
role_Effect source hdr o w true = proposer_Effect source hdr o hdr.ph_opcode _ w refl
role_Effect source hdr o w false = acceptor_Effect source hdr o hdr.ph_opcode w

-- Each message stays, or cuts.
pub session_dispatch-Effect :
    (source : ℕ) (hdr : Header) (o : Obj) (w : World)
    → Holds (Effect w) (session_dispatch source hdr o w)
unfolding session_dispatch ◌>>=◌ gets
session_dispatch-Effect source hdr o w = role_Effect source hdr o w (is_proposer w.pax)
