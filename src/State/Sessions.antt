-- ===== src/State/Sessions.antt =====
-- The list of sessions after a welcome (libmotmot/src/paxos.c and session_new of types/session.c).
use motmot.Base.{ℕ, ◌<◌, ◌≡◌, ◌≢◌, List, [], ◌∷◌, none, some, arith}
use motmot.Primitives.{pax_uuid_compare}
use motmot.Container.{find_fwd}
use motmot.Session.{Session}
use motmot.Exec.{World, done}
use motmot.State.{State, Result, returned, crashed, settle_welcome, session_find}

-- The sessions that a result leaves.
abbrev pub sessions_of : Result → List Session
sessions_of (returned r st) = st.sessions
sessions_of (crashed e) = []

-- After a welcome to a session whose identifier is above that of the first session in the list,
-- which is not 0, that first session is no longer found: the welcomed session was inserted at the
-- head, before it had its identifier, and the search stops at it.
pub settle_welcome-hides :
    (st : State) (s : Session) (l : List Session) (r : ℕ) (w : World)
    → st.sessions ≡ s ∷ l
    → s.session_id ≢ 0
    → s.session_id < w.pax.session_id
    → (session_find s.session_id st.sessions ≡ some s)
      × (session_find s.session_id (sessions_of (settle_welcome st (done r w))) ≡ none)
unfolding settle_welcome session_find find_fwd pax_uuid_compare
settle_welcome-hides st s l r w e z h = (ground arith, ground arith)
