-- ===== src/Core.antt =====
-- libmotmot/src/types/core.h and core.c: message headers and decree values.
use motmot.Base.{ℕ, Ordering}
use motmot.Primitives.{Ppair, ppair_compare}

-- Ballots as (proposer ID, ballot number); request ID's as (from ID, local request number).
abbrev pub Ballot : Type 0
Ballot = Ppair

abbrev pub Reqid : Type 0
Reqid = Ppair

-- Paxos message types. An `enum` holds any number that the wire gives it: `op_other` is one that
-- is not among the enumerators, on which no `switch` has a case.
pub data Paxop : Type 0 where
  op_prepare op_promise op_decree op_accept op_commit : Paxop
  op_welcome op_hello : Paxop
  op_request op_retrieve op_resend : Paxop
  op_redirect op_refuse op_reject : Paxop
  op_retry op_recommit : Paxop
  op_sync op_last op_truncate : Paxop
  op_other : ℕ → Paxop

pub record Header : Type 0 where
  pub ph_session : ℕ
  pub ph_ballot : Ballot
  pub ph_opcode : Paxop
  pub ph_inum : ℕ

-- Kinds of decrees, with the same reading of other numbers.
pub data Dkind : Type 0 where
  dec_null dec_chat dec_join dec_part dec_kill : Dkind
  dec_other : ℕ → Dkind

pub record Value : Type 0 where
  pub pv_dkind : Dkind
  pub pv_reqid : Reqid
  pub pv_extra : ℕ

unfoldable pub ballot_compare : Ballot → Ballot → Ordering
unfolding ppair_compare
ballot_compare x y = ppair_compare x y

unfoldable pub reqid_compare : Reqid → Reqid → Ordering
unfolding ppair_compare
reqid_compare x y = ppair_compare x y
