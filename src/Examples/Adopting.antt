-- ===== src/Examples/Adopting.antt =====
-- A promise with two votes, and what a proposer makes of it.
use motmot.Base.{◌≡◌, refl, true, false, [], ◌∷◌}
use motmot.Primitives.{paxid_compare}
use motmot.Core.{ballot_compare}
use motmot.Session.{Ref, at, off, zero_instance}
use motmot.SessionLocal.{get_at, set_at}
use motmot.Msgpack.{Obj, Objs, array, positive_integer, boolean, cons, nil}
use motmot.Proposer.{promise_votes}
use motmot.Proposer.Settles.{Settles}
use motmot.Exec.{World, done, Outcome, ended, fault}
use motmot.Examples.{acceptor_session, in_world}

abbrev vote_header : Obj
vote_header = array (
    cons (positive_integer 77) (
      cons (positive_integer 1)
        (cons (positive_integer 2) (cons (positive_integer 3) (cons (positive_integer 4) nil)))))

abbrev vote_value : Obj
vote_value = array (
    cons (positive_integer 1)
      (cons (positive_integer 2) (cons (positive_integer 5) (cons (positive_integer 0) nil))))

-- A vote for instance 4, which is there with a lower ballot.
abbrev vote : Obj
vote = array (cons vote_header (cons (boolean true) (cons vote_value nil)))

abbrev promised : Objs
promised = cons vote (cons vote nil)

abbrev asked : World
asked = in_world acceptor_session

abbrev left : World → Outcome (Unit {0}) → World
left w (done r v) = v
left w (ended v) = v
left w (fault e) = w

-- The iterator of a prepare whose first node an earlier promise has replaced.
abbrev replaced_earlier : Ref
replaced_earlier = off zero_instance (at 2)

abbrev adopted : World
adopted = left asked (promise_votes replaced_earlier promised asked)

votes_return : promise_votes replaced_earlier promised asked ≡ done tt adopted
unfolding promise_votes motmot.Proposer.promise_vote motmot.Proposer.get_instance_glb
    motmot.Proposer.glb_loop motmot.Proposer.switch_in motmot.Proposer.insert_after
    motmot.Proposer.insert_after_and_upstart motmot.Proposer.insert_vote motmot.Proposer.with_refs
    motmot.Proposer.swapped motmot.Proposer.relisted motmot.Proposer.unpacked
    motmot.Proposer.left_off motmot.Proposer.glb_from_ref motmot.Util.deref_instance
    motmot.Util.write_instance motmot.Learn.nodes_from motmot.Exec.◌>>=◌ motmot.Exec.gets
    motmot.Exec.need motmot.Exec.modify motmot.Exec.pure motmot.Codec.paxos_instance_unpack
    motmot.Codec.paxos_header_unpack motmot.Codec.paxos_value_unpack motmot.Codec.paxop_of_code
    motmot.Codec.dkind_of_code motmot.Codec.paxos_uuid_unpack motmot.Codec.paxos_paxid_unpack
    motmot.Base.to_u32 ballot_compare motmot.Primitives.ppair_compare paxid_compare acceptor_session
    get_at set_at
votes_return = refl
