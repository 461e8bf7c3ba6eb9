-- ===== src/Acceptor/Ballots.antt =====
-- Which prepares an acceptor promises to (acceptor_ack_prepare of libmotmot/src/paxos_acceptor.c).
use motmot.Base.{
  ℕ, ◌≡◌, refl, subst, not, Option-cases, ◌∙◌, Bool, true, false, Ordering, ◌⊎◌, inl, inr, some,
  if◌then◌else◌,
}
use motmot.Core.{Header, ballot_compare}
use motmot.Session.{Session, Acceptor}
use motmot.SessionLocal.{paxid_of, get_at}
use motmot.Util.{deref_acceptor, proposer_paxid}
use motmot.Util.Quiet.{Quiet, quiet_rules, Quiet-peer_send, Quiet-proposer_paxid, Quiet-to_proposer}
use motmot.Objection.{acceptor_redirect}
use motmot.Acceptor.{peer_is, acceptor_promise, acceptor_ack_prepare}
use motmot.Exec.{World, Outcome, done, ended, fault, gets, modify, need, ◌>>=◌}
use motmot.Exec.Moves.{Moves, Holds}

Quiet-redirect : (s : ℕ) (hdr : Header) → Moves Quiet (acceptor_redirect s hdr)
unfolding acceptor_redirect
Quiet-redirect s hdr = search (quiet_rules, Quiet-proposer_paxid, Quiet-peer_send) depth 8

-- The session after a promise.
abbrev pub promised : Header → Session → Session
promised hdr s = record s { ballot = hdr.ph_ballot; gen_high = hdr.ph_ballot.gen }

-- The peer is that of the acceptor we take for the proposer.
abbrev pub FromProposer : ℕ → Session → Type 0
FromProposer source s =
    (p : ℕ) × (acc : Acceptor) × (s.proposer ≡ some p)
    × (get_at paxid_of p s.alist ≡ some acc)
    × (peer_is acc.pa_peer source ≡ true)

-- How a prepare may be answered.
abbrev Answer : ℕ → Header → World → World → Type 0
Answer source hdr u w =
    (w.pax ≡ u.pax)
    ⊎ ((ballot_compare hdr.ph_ballot u.pax.ballot ≡ Ordering.gt)
        × FromProposer source u.pax
        × (w.pax ≡ promised hdr u.pax))

redirected :
    (source : ℕ) (hdr : Header) (w : World) (r : Outcome ℕ)
    → Holds (Quiet w) r
    → Holds (Answer source hdr w) r
redirected source hdr w (done a v) h = inl h.same
redirected source hdr w (ended v) h = tt
redirected source hdr w (fault e) h = tt

promised_to :
    (source : ℕ) (hdr : Header) (w v : World) (r : Outcome ℕ)
    → ballot_compare hdr.ph_ballot w.pax.ballot ≡ Ordering.gt
    → FromProposer source w.pax
    → v.pax ≡ promised hdr w.pax
    → Holds (Quiet v) r
    → Holds (Answer source hdr w) r
promised_to source hdr w v (done a x) b f e h = inr (b, f, h.same ∙ e)
promised_to source hdr w v (ended x) b f e h = tt
promised_to source hdr w v (fault x) b f e h = tt

promise_Answer :
    (source : ℕ) (hdr : Header) (w : World)
    → ballot_compare hdr.ph_ballot w.pax.ballot ≡ Ordering.gt
    → FromProposer source w.pax
    → Holds (Answer source hdr w) (acceptor_promise hdr w)
unfolding acceptor_promise ◌>>=◌ gets modify
promise_Answer source hdr w b f =
    let v : World = record w { pax = promised hdr w.pax } in
    promised_to source hdr w v _ b f refl ((Quiet-to_proposer _).run v)

-- The test of the sender, given the acceptor that we take for the proposer.
sender_Answer :
    (source : ℕ) (hdr : Header) (w : World) (p : ℕ) (acc : Acceptor) (b : Bool)
    → ballot_compare hdr.ph_ballot w.pax.ballot ≡ Ordering.gt
    → w.pax.proposer ≡ some p
    → get_at paxid_of p w.pax.alist ≡ some acc
    → peer_is acc.pa_peer source ≡ b
    → Holds
        (Answer source hdr w)
        ((if not b then acceptor_redirect source hdr else acceptor_promise hdr) w)
sender_Answer source hdr w p acc true n e g k = promise_Answer source hdr w n (p, acc, e, g, k)
sender_Answer source hdr w p acc false n e g k =
    redirected source hdr w _ ((Quiet-redirect source hdr).run w)

newer_Answer :
    (source : ℕ) (hdr : Header) (w : World)
    → ballot_compare hdr.ph_ballot w.pax.ballot ≡ Ordering.gt
    → Holds (Answer source hdr w) (
        (do
          p ← proposer_paxid
          proposer ← deref_acceptor p
          if not (peer_is proposer.pa_peer source)
              then acceptor_redirect source hdr
              else acceptor_promise hdr)
          w)
unfolding proposer_paxid deref_acceptor ◌>>=◌ gets need
newer_Answer source hdr w n = elim (Option-cases w.pax.proposer) [
  | inl e ↦ simp e tt
  | inr (p, e) ↦ (elim (Option-cases (get_at paxid_of p w.pax.alist)) [
    | inl g ↦ simp (e, g) tt
    | inr (acc, g) ↦
        simp (e, g) (sender_Answer source hdr w p acc (peer_is acc.pa_peer source) n e g refl)
  ])
]

ack_prepare_Answer :
    (source : ℕ) (hdr : Header) (w : World) (c : Ordering)
    → ballot_compare hdr.ph_ballot w.pax.ballot ≡ c
    → Holds (Answer source hdr w) (acceptor_ack_prepare source hdr w)
unfolding acceptor_ack_prepare ◌>>=◌ gets
ack_prepare_Answer source hdr w Ordering.gt h = rw h (newer_Answer source hdr w h)
ack_prepare_Answer source hdr w Ordering.lt h =
    rw h (redirected source hdr w _ ((Quiet-redirect source hdr).run w))
ack_prepare_Answer source hdr w Ordering.eq h =
    rw h (redirected source hdr w _ ((Quiet-redirect source hdr).run w))

-- An acceptor that has handled a prepare either has its session as it was, or the prepare's ballot
-- was higher than its own and came from the peer of the acceptor that it takes for the proposer,
-- and its session differs in that its ballot, and the highest generation it has seen, are the
-- prepare's.
pub acceptor_ack_prepare-promises :
    (source : ℕ) (hdr : Header) (w w' : World) (r : ℕ)
    → acceptor_ack_prepare source hdr w ≡ done r w'
    → (w'.pax ≡ w.pax)
      ⊎ ((ballot_compare hdr.ph_ballot w.pax.ballot ≡ Ordering.gt)
          × FromProposer source w.pax
          × (w'.pax ≡ promised hdr w.pax))
acceptor_ack_prepare-promises source hdr w w' r e =
    subst (Holds (Answer source hdr w)) e (ack_prepare_Answer source hdr w _ refl)
