-- ===== src/Examples/Learning.antt =====
-- Learning from the hole on, in a session that has heard of two more commits; and a decree.
use motmot.Base.{◌≢◌, some, ◌⊎◌, ◌&&◌, Ordering, ℕ, ◌≡◌, refl, true, false, [], ◌∷◌, List}
use motmot.Primitives.{paxid_compare}
use motmot.Session.{Instance}
use motmot.SessionLocal.{inum_of, get_at, set_at, instance_find}
use motmot.SessionLocal.Tables.{Increasing}
use motmot.Learn.{nodes_from, learn_contiguous}
use motmot.Learn.Order.{ready, past, mark, OffStart, learn_contiguous-ready}
use motmot.Core.{Header, op_accept, Value, ballot_compare}
use motmot.Proposer.{proposer_ack_accept, decree_deferred}
use motmot.Lead.Deferred.{decree_deferred-enough_fuel}
use motmot.Codec.{paxos_value_unpack}
use motmot.Msgpack.{Obj, array, positive_integer, cons, nil}
use motmot.Acceptor.{acceptor_ack_decree, fresh_instance}
use motmot.Acceptor.Accepts.{taken, Accepts, acceptor_ack_decree-accepts}
use motmot.Exec.{World, done, fault, out_of_fuel}
use motmot.Examples.{
  numbered, committed, acceptor_session, in_world, world_after, decree_header, chat_value,
}

-- Committed, but not learned.
abbrev waiting : ℕ → Instance
waiting n = record (committed n) { pi_learned = false }

-- The hole is 3; the instances 3 and 4 can be learned, the 6th cannot.
abbrev five_instances : List Instance
five_instances = committed 1 ∷ committed 2 ∷ waiting 3 ∷ waiting 4 ∷ waiting 6 ∷ []

abbrev behind : World
behind = in_world (record acceptor_session { ilist = five_instances })

abbrev caught_up : World
caught_up = world_after behind (learn_contiguous behind)

five-Increasing : Increasing inum_of behind.pax.ilist
unfolding paxid_compare
five-Increasing = (
  (refl, (refl, (refl, (refl, tt)))),
  ((refl, (refl, (refl, tt))), ((refl, (refl, tt)), ((refl, tt), (tt, tt)))),
)

learns : learn_contiguous behind ≡ done 0 caught_up
unfolding learn_contiguous acceptor_session motmot.Exec.◌>>=◌ motmot.Exec.gets motmot.Exec.need
    motmot.Exec.modify motmot.Exec.pure motmot.Exec.assert motmot.Util.deref_instance get_at set_at
    nodes_from motmot.Learn.learn_from motmot.Learn.learn_round motmot.Learn.deref
    motmot.Learn.learn_start motmot.Learn.learn_nodes motmot.Learn.start_nodes
    motmot.Learn.assert_front motmot.Learn.set_istart motmot.Learn.request_for
    motmot.Learn.paxos_learn motmot.Learn.learn_value motmot.Util.err_ret motmot.Util.write_instance
    motmot.Util.request_needs_cached motmot.Base.inc32
learns = refl

learn_contiguous-ready_example :
    ((caught_up.pax.ilist ≡ mark (ready 3 (nodes_from 3 five_instances)) five_instances)
      × (caught_up.pax.ihole ≡ past (ready 3 (nodes_from 3 five_instances)) 3))
    ⊎ ((i : Instance) × OffStart behind.pax.istart i
        × (inum_of i ≡ 3)
        × ((i.pi_committed && i.pi_cached) ≡ false)
        × (caught_up.pax.ilist ≡ five_instances)
        × (caught_up.pax.ihole ≡ 3))
unfolding acceptor_session
learn_contiguous-ready_example = learn_contiguous-ready behind caught_up five-Increasing learns

-- The hole moves to 5.
hole_after : past (ready 3 (nodes_from 3 five_instances)) 3 ≡ 5
unfolding nodes_from motmot.Base.inc32
hole_after = refl

-- A chat, decreed as the fifth instance.
abbrev chat_payload : Obj
chat_payload = array (
    cons (positive_integer 1)
      (cons (positive_integer 2) (cons (positive_integer 5) (cons (positive_integer 0) nil))))

abbrev idle : World
idle = in_world acceptor_session

abbrev accepted : World
accepted = world_after idle (acceptor_ack_decree decree_header chat_payload idle)

decree_returns : acceptor_ack_decree decree_header chat_payload idle ≡ done 0 accepted
unfolding acceptor_session motmot.Exec.◌>>=◌ motmot.Exec.gets motmot.Exec.need motmot.Exec.modify
    motmot.Exec.option_case motmot.Exec.emit motmot.Exec.pure motmot.Exec.assert motmot.Exec.fail
    motmot.Util.paxos_send_to_proposer motmot.Util.paxos_send motmot.Util.paxos_peer_send
    motmot.Util.proposer_paxid motmot.Util.deref_acceptor get_at acceptor_ack_decree
    motmot.Acceptor.accept_decree motmot.Acceptor.accept_over motmot.Acceptor.rejects_part
    motmot.Acceptor.acceptor_accept motmot.SessionLocal.instance_find
    motmot.SessionLocal.instance_insert motmot.Container.find_rev motmot.Container.scan_rev
    motmot.Container.insert_rev motmot.Container.place_rev paxid_compare
    motmot.Util.instance_insert_and_upstart ballot_compare paxos_value_unpack
    motmot.Codec.dkind_of_code motmot.Base.to_u32
decree_returns = refl

acceptor_ack_decree-accepts_example :
    (accepted.pax ≡ idle.pax)
    ⊎ ((ballot_compare decree_header.ph_ballot idle.pax.ballot ≡ Ordering.eq)
        × (idle.pax.proposer ≡ some idle.pax.ballot.id)
        × (val : Value) × (paxos_value_unpack chat_payload ≡ some val)
        × Accepts decree_header val idle.pax accepted.pax)
acceptor_ack_decree-accepts_example =
    acceptor_ack_decree-accepts decree_header chat_payload idle accepted 0 decree_returns

-- The instance is new.
fifth_accepted : get_at inum_of 5 accepted.pax.ilist ≡ some (taken decree_header chat_value)
unfolding acceptor_session motmot.Exec.◌>>=◌ motmot.Exec.gets motmot.Exec.need motmot.Exec.modify
    motmot.Exec.option_case motmot.Exec.emit motmot.Exec.pure motmot.Exec.assert motmot.Exec.fail
    motmot.Util.paxos_send_to_proposer motmot.Util.paxos_send motmot.Util.paxos_peer_send
    motmot.Util.proposer_paxid motmot.Util.deref_acceptor get_at acceptor_ack_decree
    motmot.Acceptor.accept_decree motmot.Acceptor.accept_over motmot.Acceptor.rejects_part
    motmot.Acceptor.acceptor_accept motmot.SessionLocal.instance_find
    motmot.SessionLocal.instance_insert motmot.Container.find_rev motmot.Container.scan_rev
    motmot.Container.insert_rev motmot.Container.place_rev paxid_compare
    motmot.Util.instance_insert_and_upstart ballot_compare paxos_value_unpack
    motmot.Codec.dkind_of_code motmot.Base.to_u32
fifth_accepted = refl

-- The proposer's side: the second of three acceptors accepts instance 4.
abbrev accept_header : Header
accept_header = record decree_header { ph_opcode = op_accept; ph_inum = 4 }

abbrev voted_once : Instance
voted_once = record (numbered 4) { pi_votes = 1 }

abbrev leading : World
leading =
    in_world
      (record acceptor_session { self_id = 1; ilist = committed 1 ∷ committed 2 ∷ voted_once ∷ [] })

abbrev counted_in : World
counted_in = world_after leading (proposer_ack_accept accept_header leading)

abbrev one_deferred : World
one_deferred = in_world (record acceptor_session { self_id = 1; idefer = numbered 0 ∷ [] })

led_by_itself : one_deferred.pax.proposer ≡ some one_deferred.pax.self_id
unfolding acceptor_session
led_by_itself = refl

decree_deferred-enough_fuel_example : decree_deferred 1 one_deferred ≢ fault out_of_fuel
decree_deferred-enough_fuel_example = decree_deferred-enough_fuel one_deferred led_by_itself
