-- ===== src/Examples/Traffic.antt =====
-- Messages to a session, and what its handlers do.
use motmot.Base.{
  arith, ◌≡◌, refl, Bool, true, false, Ordering, ◌⊎◌, List, [], ◌∷◌, Option, none, some,
}
use motmot.Primitives.{paxid_compare}
use motmot.Core.{Header, op_truncate, ballot_compare}
use motmot.Session.{Instance}
use motmot.SessionLocal.{inum_of, get_at}
use motmot.SessionLocal.Tables.{Increasing}
use motmot.Msgpack.{Obj, array, positive_integer, cons, nil}
use motmot.Prepare.{proposer_prepare_by, proposer_prepare}
use motmot.Prepare.Independent.{proposer_prepare-independent}
use motmot.Proposer.{proposer_decree}
use motmot.Acceptor.{acceptor_ack_prepare}
use motmot.Acceptor.Ballots.{promised, FromProposer, acceptor_ack_prepare-promises}
use motmot.Reconnect.{do_continue_ack_reject}
use motmot.Reconnect.Nullify.{do_continue_ack_reject-uncommits}
use motmot.Dispatch.{session_dispatch, drop_connection}
use motmot.Sync.{proposer_sync}
use motmot.State.{started}
use motmot.Stable.Runs.{timer, founder_join, started-Run, Run, rest, step, message, drop}
use motmot.Exec.{World, done}
use motmot.Examples.{
  committed, third_acceptor, decree_header, prepare_header, acceptor_session, in_world, world_after,
}

abbrev before : World
before = in_world acceptor_session

session-Increasing : Increasing inum_of before.pax.ilist
unfolding paxid_compare acceptor_session
session-Increasing = ((refl, (refl, tt)), ((refl, tt), (tt, tt)))

-- A chat, decreed as the fifth instance.
abbrev chat_payload : Obj
chat_payload = array (
    cons (positive_integer 1)
      (cons (positive_integer 2) (cons (positive_integer 5) (cons (positive_integer 0) nil))))

abbrev decree_handled : World
decree_handled = world_after before (session_dispatch 10 decree_header chat_payload before)

decree_returns : session_dispatch 10 decree_header chat_payload before ≡ done 0 decree_handled
unfolding session_dispatch acceptor_session motmot.Exec.◌>>=◌ motmot.Exec.gets motmot.Exec.need
    motmot.Exec.modify motmot.Exec.option_case motmot.Exec.emit motmot.Exec.pure motmot.Exec.assert
    motmot.Exec.fail motmot.Util.paxos_send_to_proposer motmot.Util.paxos_send
    motmot.Util.paxos_peer_send motmot.Util.proposer_paxid motmot.Util.deref_acceptor get_at
    motmot.Util.is_proposer motmot.Dispatch.acceptor_dispatch motmot.Dispatch.acceptor_case
    motmot.Acceptor.acceptor_ack_decree motmot.Acceptor.accept_decree motmot.Acceptor.accept_over
    motmot.Acceptor.rejects_part motmot.Acceptor.acceptor_accept motmot.SessionLocal.instance_find
    motmot.SessionLocal.instance_insert motmot.Container.find_rev motmot.Container.scan_rev
    motmot.Container.insert_rev motmot.Container.place_rev paxid_compare
    motmot.Util.instance_insert_and_upstart ballot_compare motmot.Codec.paxos_value_unpack
    motmot.Codec.dkind_of_code motmot.Base.to_u32
decree_returns = refl

decree_base : decree_handled.pax.ibase ≡ 1
unfolding session_dispatch acceptor_session motmot.Exec.◌>>=◌ motmot.Exec.gets motmot.Exec.need
    motmot.Exec.modify motmot.Exec.option_case motmot.Exec.emit motmot.Exec.pure motmot.Exec.assert
    motmot.Exec.fail motmot.Util.paxos_send_to_proposer motmot.Util.paxos_send
    motmot.Util.paxos_peer_send motmot.Util.proposer_paxid motmot.Util.deref_acceptor get_at
    motmot.Util.is_proposer motmot.Dispatch.acceptor_dispatch motmot.Dispatch.acceptor_case
    motmot.Acceptor.acceptor_ack_decree motmot.Acceptor.accept_decree motmot.Acceptor.accept_over
    motmot.Acceptor.rejects_part motmot.Acceptor.acceptor_accept motmot.SessionLocal.instance_find
    motmot.SessionLocal.instance_insert motmot.Container.find_rev motmot.Container.scan_rev
    motmot.Container.insert_rev motmot.Container.place_rev paxid_compare
    motmot.Util.instance_insert_and_upstart ballot_compare motmot.Codec.paxos_value_unpack
    motmot.Codec.dkind_of_code motmot.Base.to_u32
decree_base = refl

-- Then the log is cut at 2.
abbrev truncate_header : Header
truncate_header = record decree_header { ph_opcode = op_truncate }

abbrev truncate_handled : World
truncate_handled =
    world_after decree_handled
      (session_dispatch 10 truncate_header (positive_integer 2) decree_handled)

truncate_returns :
    session_dispatch 10 truncate_header (positive_integer 2) decree_handled
    ≡ done 0 truncate_handled
unfolding session_dispatch acceptor_session motmot.Exec.◌>>=◌ motmot.Exec.gets motmot.Exec.need
    motmot.Exec.modify motmot.Exec.option_case motmot.Exec.emit motmot.Exec.pure motmot.Exec.assert
    motmot.Exec.fail motmot.Util.paxos_send_to_proposer motmot.Util.paxos_send
    motmot.Util.paxos_peer_send motmot.Util.proposer_paxid motmot.Util.deref_acceptor get_at
    motmot.Util.is_proposer motmot.Dispatch.acceptor_dispatch motmot.Dispatch.acceptor_case
    motmot.Acceptor.acceptor_ack_decree motmot.Acceptor.accept_decree motmot.Acceptor.accept_over
    motmot.Acceptor.rejects_part motmot.Acceptor.acceptor_accept motmot.SessionLocal.instance_find
    motmot.SessionLocal.instance_insert motmot.Container.find_rev motmot.Container.scan_rev
    motmot.Container.insert_rev motmot.Container.place_rev paxid_compare
    motmot.Util.instance_insert_and_upstart ballot_compare motmot.Codec.paxos_value_unpack
    motmot.Codec.dkind_of_code motmot.Base.to_u32 motmot.Sync.acceptor_ack_truncate
    motmot.Codec.paxos_paxid_unpack
truncate_returns = refl

truncate_base : truncate_handled.pax.ibase ≡ 2
unfolding session_dispatch acceptor_session motmot.Exec.◌>>=◌ motmot.Exec.gets motmot.Exec.need
    motmot.Exec.modify motmot.Exec.option_case motmot.Exec.emit motmot.Exec.pure motmot.Exec.assert
    motmot.Exec.fail motmot.Util.paxos_send_to_proposer motmot.Util.paxos_send
    motmot.Util.paxos_peer_send motmot.Util.proposer_paxid motmot.Util.deref_acceptor get_at
    motmot.Util.is_proposer motmot.Dispatch.acceptor_dispatch motmot.Dispatch.acceptor_case
    motmot.Acceptor.acceptor_ack_decree motmot.Acceptor.accept_decree motmot.Acceptor.accept_over
    motmot.Acceptor.rejects_part motmot.Acceptor.acceptor_accept motmot.SessionLocal.instance_find
    motmot.SessionLocal.instance_insert motmot.Container.find_rev motmot.Container.scan_rev
    motmot.Container.insert_rev motmot.Container.place_rev paxid_compare
    motmot.Util.instance_insert_and_upstart ballot_compare motmot.Codec.paxos_value_unpack
    motmot.Codec.dkind_of_code motmot.Base.to_u32 motmot.Sync.acceptor_ack_truncate
    motmot.Sync.truncate motmot.Codec.paxos_paxid_unpack
truncate_base = refl

-- Then the acceptor 3 is lost.
abbrev drop_handled : World
drop_handled = world_after truncate_handled (drop_connection 30 truncate_handled)

drop_returns : drop_connection 30 truncate_handled ≡ done 0 drop_handled
unfolding drop_connection motmot.Dispatch.lose_acceptor motmot.Dispatch.acceptor_of_peer
    motmot.Learn.emit_all motmot.Dispatch.still motmot.Util.write_acceptor
    motmot.SessionLocal.set_at motmot.Base.dec32 motmot.Sync.acceptor_ack_truncate
    motmot.Sync.truncate motmot.Codec.paxos_paxid_unpack session_dispatch acceptor_session
    motmot.Exec.◌>>=◌ motmot.Exec.gets motmot.Exec.need motmot.Exec.modify motmot.Exec.option_case
    motmot.Exec.emit motmot.Exec.pure motmot.Exec.assert motmot.Exec.fail
    motmot.Util.paxos_send_to_proposer motmot.Util.paxos_send motmot.Util.paxos_peer_send
    motmot.Util.proposer_paxid motmot.Util.deref_acceptor get_at motmot.Util.is_proposer
    motmot.Dispatch.acceptor_dispatch motmot.Dispatch.acceptor_case
    motmot.Acceptor.acceptor_ack_decree motmot.Acceptor.accept_decree motmot.Acceptor.accept_over
    motmot.Acceptor.rejects_part motmot.Acceptor.acceptor_accept motmot.SessionLocal.instance_find
    motmot.SessionLocal.instance_insert motmot.Container.find_rev motmot.Container.scan_rev
    motmot.Container.insert_rev motmot.Container.place_rev paxid_compare
    motmot.Util.instance_insert_and_upstart ballot_compare motmot.Codec.paxos_value_unpack
    motmot.Codec.dkind_of_code motmot.Base.to_u32
drop_returns = refl

abbrev three_steps : Run 2 before drop_handled
three_steps =
    step before decree_handled drop_handled
      (message 10 decree_header chat_payload 0 before decree_handled decree_returns
        (omega (arith, decree_base)))
      (step decree_handled truncate_handled drop_handled
        (message 10 truncate_header (positive_integer 2) 0 decree_handled truncate_handled
          truncate_returns (omega (arith, truncate_base)))
        (step truncate_handled drop_handled drop_handled
          (drop 30 0 truncate_handled drop_handled drop_returns) (rest drop_handled)))

abbrev prepare_handled : World
prepare_handled = world_after before (acceptor_ack_prepare 10 prepare_header before)

prepare_returns : acceptor_ack_prepare 10 prepare_header before ≡ done 0 prepare_handled
unfolding acceptor_ack_prepare acceptor_session motmot.Exec.◌>>=◌ motmot.Exec.gets motmot.Exec.need
    motmot.Exec.modify motmot.Exec.option_case motmot.Exec.emit motmot.Exec.pure motmot.Exec.assert
    motmot.Exec.fail motmot.Util.paxos_send_to_proposer motmot.Util.paxos_send
    motmot.Util.paxos_peer_send motmot.Util.proposer_paxid motmot.Util.deref_acceptor get_at
    ballot_compare motmot.Acceptor.acceptor_promise
prepare_returns = refl

acceptor_ack_prepare-promises_example :
    (prepare_handled.pax ≡ before.pax)
    ⊎ ((ballot_compare prepare_header.ph_ballot before.pax.ballot ≡ Ordering.gt)
        × FromProposer 10 before.pax
        × (prepare_handled.pax ≡ promised prepare_header before.pax))
acceptor_ack_prepare-promises_example =
    acceptor_ack_prepare-promises 10 prepare_header before prepare_handled 0 prepare_returns

proposer_prepare-independent_example :
    proposer_prepare_by proposer_decree true before ≡ proposer_prepare true before
proposer_prepare-independent_example = proposer_prepare-independent proposer_decree true before

-- The client could not connect to the acceptor 3, while instance 2 was committed.
abbrev reject_handled : World
reject_handled = world_after before (do_continue_ack_reject 2 none third_acceptor before)

reject_returns : do_continue_ack_reject 2 none third_acceptor before ≡ done 0 reject_handled
unfolding do_continue_ack_reject acceptor_session motmot.Exec.◌>>=◌ motmot.Exec.gets
    motmot.Exec.need motmot.Exec.modify motmot.Exec.option_case motmot.Exec.emit motmot.Exec.pure
    motmot.Exec.assert motmot.Exec.fail motmot.SessionLocal.instance_find motmot.Container.find_rev
    motmot.Container.scan_rev paxid_compare motmot.Util.err_ret motmot.Util.err_accum
    motmot.Util.write_acceptor motmot.Util.write_instance motmot.SessionLocal.set_at
    motmot.Greet.paxos_peer_init motmot.Greet.attach_peer motmot.Util.deref_instance
    motmot.Reconnect.redecree_part motmot.Reconnect.nullified
    motmot.SessionLocal.instance_init_metadata motmot.Util.paxos_broadcast_instance
    motmot.Util.paxos_broadcast motmot.Util.broadcast_to motmot.Util.paxos_send
    motmot.Util.paxos_peer_send motmot.Util.deref_acceptor get_at motmot.Base.inc32
    motmot.Base.dec32
reject_returns = refl

second_found : get_at inum_of 2 before.pax.ilist ≡ some (committed 2)
unfolding get_at acceptor_session
second_found = refl

do_continue_ack_reject-uncommits_example :
    (j : Instance) × (get_at inum_of 2 reject_handled.pax.ilist ≡ some j) × (j.pi_committed ≡ false)
do_continue_ack_reject-uncommits_example =
    do_continue_ack_reject-uncommits 2 0 third_acceptor (committed 2) before reject_handled
      session-Increasing second_found refl reject_returns

-- A new session, whose sync timer goes off.
abbrev founded : World
founded = in_world (started 5 0 (97 ∷ []))

abbrev timer_handled : World
timer_handled = world_after founded (proposer_sync founded)

timer_returns : proposer_sync founded ≡ done 0 timer_handled
unfolding proposer_sync motmot.Sync.begin_sync motmot.Sync.new_sync started motmot.Exec.◌>>=◌
    motmot.Exec.gets motmot.Exec.modify motmot.Exec.option_case motmot.Exec.pure motmot.Exec.emit
    motmot.Util.paxos_broadcast motmot.Util.broadcast_to motmot.Base.dec32 motmot.Base.inc32
    motmot.Util.header_init motmot.Session.session_init
timer_returns = refl

started-Run_example :
    Increasing inum_of timer_handled.pax.ilist
    × ((j : Instance) × (get_at inum_of 1 timer_handled.pax.ilist ≡ some j)
        × (j.pi_committed ≡ true)
        × (j.pi_val ≡ founder_join))
started-Run_example = started-Run 5 0 (97 ∷ []) founded timer_handled refl (
    step founded timer_handled timer_handled (timer 0 founded timer_handled timer_returns)
      (rest timer_handled))
