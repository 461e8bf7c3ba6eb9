-- ===== src/Lib.antt =====
-- motmot is a group chat over Multi-Paxos: the participants of a session (acceptors) agree on a log of
-- decrees (chats, joins, parts), and each learns the log in the order of its numbers. This library
-- models libmotmot, the C library of libmotmot/src, which runs the protocol: what each message, timer
-- and lost connection does to the state of a session, and what it sends.
--
-- The parts and the files that model them:
--   Base, Base/Tests, Base/Lists    shared names, Boolean tests, `uint32_t` arithmetic, lists; Base/Text
--                                   has C strings
--   Primitives, Core                types/primitives.c, types/core.h: identifiers, pairs, headers, values
--   Container                       containers/list_factory.h; Container/Order and Container/Laws for proofs
--   Session, SessionLocal           types/session.h, session_local.c, continuation.h: the state of a
--                                   session; SessionLocal/Tables has the lemmas on its sorted lists
--   Msgpack, Codec                  what libmotmot uses of msgpack, and the packers of types/*.c
--   Exec, Exec/Moves, Exec/Fuel     how handlers run, relations between states before and after, and
--                                   actions that do not run out of fuel; Exec/Returns has what a handler
--                                   that returned tells of its parts
--   Util                            paxos_util.c: quorums, broadcasts; Util/Quiet has the actions that
--                                   only send
--   Prepare, Proposer               paxos_proposer.c and paxos_end; Proposer/Rounds has the rounds of
--                                   the loop that decrees again, Proposer/Votes the counting of accepts,
--                                   Proposer/Commits what a commit does,
--                                   Proposer/Raises, Proposer/Adopts and Proposer/Settles
--                                   the votes of a promise
--   Acceptor, Objection             paxos_acceptor.c, and the replies of paxos_reconnect.c
--   Learn, Ask                      paxos_learn.c, and the requests for help that it sends; Learn/Order
--                                   has the loop that learns
--   Request, Retry, Sync            paxos_request.c, paxos_retry.c, paxos_sync.c
--   Greet, Reconnect                paxos_greet.c, paxos_reconnect.c
--   Dispatch, State                 paxos.c, paxos_continue.h, paxos_state.h, motmot.c
--   Stable                          what the handlers keep of the log: a module for each part of the
--                                   protocol (Stable/Promises, Stable/Cuts for truncation), and
--                                   Stable/Runs with the runs of a session as a step relation
--   Lead                            what holds while a session is its own proposer; Lead/Deferred has
--                                   the loop over the deferred instances
--   Io                              paxos_io.c: the write buffer of a peer and its event sources;
--                                   Io/Reading and, for proofs, Io/Framing have the reading callback
--   Rpc                             turquoise/rpc.c: the calls and responses of a motmot server
--   Plugin                          turquoise/purplemot.c: stored messages (Plugin/Offline, and
--                                   Plugin/Mailbox for proofs), statuses, chats, rooms
--   Print                           paxos_print.c; Print/Readback reads a printed header
--   Client                          main.c: the example client; Client/Commands has its lines of input
--   Examples                        the theorems at concrete inputs
--
-- A handler is a function from the world (the session to which the global `pax` is bound, and the log
-- of what has left the library: messages and calls of the client's callbacks) to an outcome: it
-- returns a number and a world, or it has ended and freed the session, or it faults, on a failed
-- assert, a NULL read, or a read of the list's head as an instance. `paxos_commit` in the C code reaches
-- `proposer_prepare`, which reaches `proposer_decree`, which reaches `paxos_commit`; the circle is cut
-- where the code never goes round it, at the parts that a prepare defers. State has the list of
-- sessions, and runs a handler on the session that a message names.
--
-- A pointer to an acceptor or an instance is its number; the lists hold one element for each number.
-- An instance that a promise replaces is taken off the ilist and not freed, while `pax->istart` and
-- `pp_istart` may go on pointing to it. Such a pointer (`off` and `scratch` of Session) holds the
-- instance and its `le_next`, and is followed as the code does: in the search for the next vote's place,
-- when the loop decrees again, and in learning. The code can go on to insert after such a node, to
-- replace it, to decree it or to learn it, which writes to a node that is off the ilist or breaks the
-- order of the ilist. There the model stops, with the fault `off_list`, and no theorem speaks of what
-- the code does after that.
--
-- Identifiers are `uint32_t` and wrap where the code increments or decrements them. Messages are the
-- tokens that the packers give to msgpack, and the objects that it gives back; the bytes are not
-- modelled. What the client's connection callback returns is a field of the world. The client is taken
-- to be one whose callback returns before the continuation that it is given is called: the continuation
-- is a step of its own, `continue_connection`. The callback of main.c, `connect_unix`, calls it at
-- once, inside the handler, which is not modelled. The loops run over lists, but
-- for the one that decrees again after a prepare (`redecree_from`) and the one that empties the
-- deferred instances (`decree_deferred`). These take fuel: one round for each number from the hole to
-- past the last instance, and one round for each deferred instance; the results below show both to be
-- enough, the second for a session that is its own proposer; a session handles a promise only as its
-- own proposer. Running out is a fault of its own, which no theorem below takes for a return.
--
-- A peer of Io stands by itself: in the session a send is one event. What the channel does with a
-- write (its status, and how much it takes) is given with each write, and what a read gives with each
-- read; msgpack's unpacker is a parameter of Io/Reading, with its laws in Io/Framing, and so is the function
-- that handles an object, of which no law is assumed: it may fail. Rpc stands by
-- itself, too. Its parameters are libpurple's lookup of a buddy, what an array is followed by in
-- memory, and the integer that the bytes of a string read as.
--
-- Plugin and Client stand by themselves. What their code asks of libpurple, and of libmotmot and the
-- terminal, is a list of calls; what it asks for (accounts, privacy settings, chats, the time, the
-- bytes of a pointer, the bytes after a line) is a parameter; for Print, where a string in memory
-- ends. An account's connection is named by its username. Debug output is left out, and texts are not
-- translated.
--
-- Not modelled: msgpack's own buffers, the connection table of types/connect.c, which stands on GLib,
-- the sockets of main.c, and of turquoise/purplemot.c the callbacks that only write debug output and
-- the tables and menus that it gives to libpurple; of turquoise/rpc_io.c only what a new connection
-- writes is modelled.
pub mod Base
pub mod Primitives
pub mod Container
pub mod Core
pub mod Session
pub mod Msgpack
pub mod Exec
pub mod Client
pub mod Print
pub mod Codec
pub mod SessionLocal
pub mod Util
pub mod Prepare
pub mod Ask
pub mod Lead
pub mod Learn
pub mod Objection
pub mod Acceptor
pub mod Proposer
pub mod Request
pub mod Retry
pub mod Sync
pub mod Greet
pub mod Reconnect
pub mod Dispatch
pub mod State
pub mod Stable
pub mod Examples
pub mod Plugin
pub mod Rpc
pub mod Io
