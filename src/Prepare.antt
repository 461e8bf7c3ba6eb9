-- ===== src/Prepare.antt =====
-- `paxos_end` of libmotmot/src/paxos.c with `session_destroy` of types/session.c, and
-- `proposer_prepare` of paxos_proposer.c.
use motmot.Base.{
  ℕ, Bool, true, false, not, ◌||◌, List, [], ◌∷◌, ◌++◌, Option, none, some, ◌==◌, ltb, inc32,
  if◌then◌else◌,
}
use motmot.Core.{op_prepare, Header}
use motmot.Session.{Acceptor, Instance, Session, Prep}
use motmot.Util.{err_accum, majority, header_message, paxos_broadcast, proposer_decree_part_by}
use motmot.Exec.{
  Event, leave, peer_destroyed, M, ended, pure, gets, modify, emit, fail, assert, assert_failed,
  ◌>>=◌, ◌>>◌,
}
pub mod Independent

-- paxos_peer_destroy
abbrev pub destroy_peer : Option ℕ → List Event
destroy_peer none = []
destroy_peer (some p) = peer_destroyed p ∷ []

-- acceptor_container_destroy; the other containers hold no peers.
unfoldable pub destroy_acceptors : List Acceptor → List Event
destroy_acceptors [] = []
destroy_acceptors (acc ∷ l) = destroy_peer acc.pa_peer ++ destroy_acceptors l

-- The session is destroyed before `pax->client_data` is read.
unfoldable pub paxos_end : {A : Type 0} → M A
unfolding destroy_acceptors
paxos_end w = ended (record w {
  out =
      w.out
      ++ (destroy_acceptors w.pax.alist
          ++ (destroy_acceptors w.pax.adefer ++ leave w.freed_data ∷ []));
})

abbrev pub is_none : {A : Type 0} → Option A → Bool
is_none none = true
is_none (some a) = false

module _ (decree : Instance → M ℕ) where
  -- The loop over the alist that parts or kills the dropped acceptors.
  unfoldable pub part_dropped : ℕ → ℕ → List Acceptor → M ℕ
  part_dropped self r [] = pure r
  part_dropped self r (acc ∷ l) =
      if not (is_none acc.pa_peer) || (acc.pa_paxid == self) then part_dropped self r l else (do
        r' ← err_accum r (proposer_decree_part_by decree acc.pa_paxid (ltb acc.pa_paxid self))
        part_dropped self r' l)

  unfoldable pub prepare_message : Session → Prep → Header
  prepare_message pax prep = record {
    ph_session = pax.session_id;
    ph_ballot = prep.pp_ballot;
    ph_opcode = op_prepare;
    ph_inum = pax.ihole;
  }

  unfoldable pub new_prep : Session → Prep
  new_prep pax = record {
    pp_ballot = record { id = pax.self_id; gen = inc32 pax.gen_high };
    pp_acks = 1;
    pp_redirects = 0;
    pp_istart = pax.istart;
  }

  unfoldable pub start_prepare : Bool → M ℕ
  unfolding part_dropped prepare_message new_prep
  start_prepare old_proposer = do
    prep ← gets new_prep
    modify (λ s. record s { gen_high = inc32 s.gen_high; prep = some prep })
    pax ← gets (λ s. s)
    r ← (if old_proposer then part_dropped pax.self_id 0 pax.alist else pure 0)
    err_accum r (paxos_broadcast (header_message (prepare_message pax prep)))

  -- `old_proposer` tells whether the argument of that name is not NULL.
  unfoldable pub proposer_prepare_by : Bool → M ℕ
  proposer_prepare_by old_proposer = do
    pax ← gets (λ s. s)
    assert (is_none pax.prep)
    if ltb pax.live_count (majority pax) then paxos_end else start_prepare old_proposer

-- `proposer_prepare` sets `pax->prep` before it decrees a part, so that each part is deferred and
-- the argument is never called.
unfoldable pub proposer_prepare : Bool → M ℕ
proposer_prepare old_proposer = proposer_prepare_by (λ inst. fail assert_failed) old_proposer
