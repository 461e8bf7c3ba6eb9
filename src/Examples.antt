-- ===== src/Examples.antt =====
-- The theorems at concrete inputs: lists of instances, messages, and a session with its traffic.
mod Lists
mod Wire
mod Traffic
mod Remote
mod Learning
mod Adopting
mod Plugins
mod Chunks
use motmot.Base.{[], ◌∷◌, List, some, none, true, false, ℕ, Bool, Option}
use motmot.Core.{Header, Value, Dkind, Paxop, dec_chat, dec_null, op_decree, op_prepare}
use motmot.Session.{Instance, Acceptor, Session, session_init, zero_instance, Ref, at, zero_ppair}
use motmot.Exec.{World, Outcome, done, ended, fault}

abbrev numbered : ℕ → Instance
numbered n = record zero_instance { pi_hdr = record zero_instance.pi_hdr { ph_inum = n } }

abbrev committed : ℕ → Instance
committed n = record (numbered n) { pi_committed = true; pi_cached = true; pi_learned = true }

abbrev three_instances : List Instance
three_instances = committed 1 ∷ committed 2 ∷ numbered 4 ∷ []

abbrev chat_value : Value
chat_value = record { pv_dkind = dec_chat; pv_reqid = record { id = 2; gen = 5 }; pv_extra = 0 }

abbrev decree_header : Header
decree_header = record {
  ph_session = 77;
  ph_ballot = record { id = 1; gen = 3 };
  ph_opcode = op_decree;
  ph_inum = 5;
}

abbrev prepare_header : Header
prepare_header = record decree_header {
  ph_ballot = record { id = 1; gen = 4 };
  ph_opcode = op_prepare;
}

-- The proposer 1, which we hear from at the peer 10, ourselves, and the acceptor 3.
abbrev first_acceptor : Acceptor
first_acceptor = record { pa_paxid = 1; pa_peer = some 10; pa_desc = 97 ∷ [] }

abbrev own_acceptor : Acceptor
own_acceptor = record { pa_paxid = 2; pa_peer = none; pa_desc = 98 ∷ [] }

abbrev third_acceptor : Acceptor
third_acceptor = record { pa_paxid = 3; pa_peer = some 30; pa_desc = 99 ∷ [] }

unfoldable acceptor_session : Session
unfolding session_init
acceptor_session = record (session_init 77 0) {
  self_id = 2;
  proposer = some 1;
  ballot = record { id = 1; gen = 3 };
  gen_high = 3;
  live_count = 3;
  alist = first_acceptor ∷ own_acceptor ∷ third_acceptor ∷ [];
  ilist = three_instances;
  ibase = 1;
  ihole = 3;
  istart = at 2;
}

abbrev in_world : Session → World
in_world s = record { connect = λ d. 0; freed_data = 0; pax = s; out = [] }

-- The world that a handler leaves, or the one before it.
abbrev world_after : World → Outcome ℕ → World
world_after w (done r v) = v
world_after w (ended v) = v
world_after w (fault e) = w
