-- ===== src/Proposer/Votes.antt =====
-- When a proposer commits (proposer_ack_accept of libmotmot/src/paxos_proposer.c).
use motmot.Base.{ℕ, ◌≡◌, ◌≤◌, ◌<◌, true, false, ◌⊎◌, leb, inc32, if◌then◌else◌}
use motmot.Session.{Instance}
use motmot.SessionLocal.{inum_of, set_at}
use motmot.Proposer.Commits.{Commits}
use motmot.Util.{majority}
use motmot.Proposer.{proposer_commit}
use motmot.Exec.{M, World, pure}

-- The world in which one more vote for an instance is counted.
abbrev pub counted : Instance → World → World
counted inst w = record w {
  pax = record w.pax {
    ilist =
        set_at inum_of inst.pi_hdr.ph_inum (λ i. record i { pi_votes = inc32 i.pi_votes })
          w.pax.ilist;
  };
}

-- What an accept leads to.
pub data Voted (inst : Instance) (r : ℕ) (w : World) : World → Type 0 where
  waits :
      inst.pi_committed ≡ true ⊎ (inc32 inst.pi_votes < majority w.pax)
      → Voted inst r w (counted inst w)
  commits :
      (w' : World)
      → inst.pi_committed ≡ false
      → majority w.pax ≤ inc32 inst.pi_votes
      → Commits
          (record inst { pi_votes = inc32 inst.pi_votes })
          inst.pi_hdr.ph_inum
          r
          (counted inst w)
          w'
      → Voted inst r w w'

-- What follows a vote.
abbrev vote : Instance → ℕ → M ℕ
vote inst quorum =
    if inst.pi_committed
    then pure 0
    else if leb quorum (inc32 inst.pi_votes)
    then proposer_commit inst.pi_hdr.ph_inum
    else pure 0
