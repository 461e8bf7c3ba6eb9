-- ===== src/Greet.antt =====
-- libmotmot/src/paxos_greet.c but for proposer_welcome, and paxos_peer_init of paxos_io.c, by which
-- a channel becomes a peer.
use motmot.Base.{
  ℕ, true, false, not, ◌&&◌, List, [], ◌∷◌, ◌++◌, Option, none, some, ◌==◌, ltb, inc32,
  if◌then◌else◌, length,
}
use motmot.Core.{op_welcome, op_hello, Header}
use motmot.Session.{Acceptor, Instance, Session, Ref, list_head, at, continue_ack_welcome}
use motmot.SessionLocal.{acceptor_find, acceptor_insert}
use motmot.Msgpack.{Tok, Obj, Objs, nil, cons, array, paxos_payload_begin_array}
use motmot.Codec.{
  paxos_header_pack, paxos_uuid_pack, paxos_uuid_unpack, paxos_paxid_pack, paxos_paxid_unpack,
  paxos_acceptor_pack, paxos_acceptor_unpack, paxos_instance_unpack,
}
use motmot.Util.{
  err_ret, header_init, header_message, is_proposer, paxos_send, write_acceptor, write_instance,
  proposer_paxid,
}
use motmot.Prepare.{is_none, destroy_peer}
use motmot.Ask.{continuation_new}
use motmot.Acceptor.{pack_instances}
use motmot.Learn.{last_ref, set_istart, emit_all}
use motmot.Proposer.{proposer_decree_part}
use motmot.Exec.{
  option_case, M, pure, gets, modify, emit, need, assert_failed, call_connect, sync_timer, ◌>>=◌,
  ◌>>◌,
}

-- A channel that is not NULL becomes a new peer, which goes by the channel's name.
unfoldable pub paxos_peer_init : Option ℕ → Option ℕ
paxos_peer_init chan = chan

unfoldable pub pack_acceptors : List Acceptor → List Tok
pack_acceptors [] = []
pack_acceptors (acc ∷ l) = paxos_acceptor_pack acc ++ pack_acceptors l

unfoldable pub welcome_message : Session → Header → List Tok
unfolding pack_acceptors
welcome_message pax hdr =
    paxos_payload_begin_array 2
    ++ (paxos_header_pack hdr
        ++ (paxos_payload_begin_array 3
            ++ (paxos_payload_begin_array 2
                ++ (paxos_uuid_pack pax.session_id
                    ++ (paxos_paxid_pack pax.ibase
                        ++ (paxos_payload_begin_array (length pax.alist)
                            ++ (pack_acceptors pax.alist
                                ++ (paxos_payload_begin_array (length pax.ilist)
                                    ++ pack_instances pax.ilist))))))))

-- The new peer, and the count that goes with it.
unfoldable pub attach_peer : ℕ → Option ℕ → Session → Session
attach_peer p none s = write_acceptor p (λ a. record a { pa_peer = none }) s
attach_peer p (some peer) s =
    let s' : Session = write_acceptor p (λ a. record a { pa_peer = some peer }) s in
    record s' { live_count = inc32 s.live_count }

unfoldable pub do_continue_welcome : Option ℕ → Acceptor → M ℕ
unfolding paxos_peer_init welcome_message attach_peer
do_continue_welcome chan acc = do
  let peer = paxos_peer_init chan
  modify (attach_peer acc.pa_paxid peer)
  if is_none peer then proposer_decree_part acc.pa_paxid false else (do
    pax ← gets (λ s. s)
    paxos_send (record acc { pa_peer = peer })
        (welcome_message pax (header_init pax op_welcome acc.pa_paxid)))

-- One acceptor of the welcome's alist.
unfoldable pub welcome_acceptor : ℕ → Header → Acceptor → M ℕ
welcome_acceptor source hdr acc = do
  pax ← gets (λ s. s)
  if acc.pa_paxid == hdr.ph_ballot.id
      then (do
        modify (λ s. record s {
          alist = s.alist ++ record acc { pa_peer = some source } ∷ [];
          proposer = some acc.pa_paxid;
          live_count = inc32 s.live_count;
        })
        pure 0)
      else (do
        modify (λ s. record s { alist = s.alist ++ acc ∷ [] })
        if acc.pa_paxid == pax.self_id then pure 0 else (do
          k ← continuation_new continue_ack_welcome acc.pa_paxid
          call_connect acc.pa_desc k))

unfoldable pub welcome_acceptors : ℕ → Header → Objs → M ℕ → M ℕ
welcome_acceptors source hdr nil rest = rest
welcome_acceptors source hdr (cons p ps) rest = do
  acc ← need assert_failed (paxos_acceptor_unpack p)
  err_ret (welcome_acceptor source hdr acc) (welcome_acceptors source hdr ps rest)

unfoldable pub welcome_instances : Objs → M (Unit {0})
welcome_instances nil = pure tt
welcome_instances (cons p ps) = do
  inst ← need assert_failed (paxos_instance_unpack p)
  modify (λ s. record s { ilist = s.ilist ++ inst ∷ [] })
  welcome_instances ps

-- The loop that finds the hole, over the nodes that are left, with the one before them.
unfoldable pub find_hole : Ref → List Instance → M ℕ
find_hole prev [] = do modify (λ s. record s { istart = last_ref s.ilist }); pure 0
find_hole prev (it ∷ l) = do
  hole ← gets (λ s. s.ihole)
  if not (it.pi_hdr.ph_inum == hole)
      then (do modify (set_istart prev); pure 0)
      else if not it.pi_committed
      then (do modify (set_istart (at it.pi_hdr.ph_inum)); pure 0)
      else (do
        modify (
            write_instance it.pi_hdr.ph_inum
              (λ i. record i { pi_cached = true; pi_learned = true }))
        modify (λ s. record s { ihole = inc32 s.ihole })
        find_hole (at it.pi_hdr.ph_inum) l)

-- The three parts of the payload.
unfoldable pub welcome_parts : Obj → Option (Objs × Objs × Objs)
welcome_parts (array (cons (array a) (cons (array b) (cons (array c) nil)))) = some (a, b, c)
welcome_parts _ = none

unfoldable pub welcome_ids : Objs → Option (ℕ × ℕ)
welcome_ids (cons a (cons b r)) = elim (paxos_uuid_unpack a) [
  | none ↦ none
  | some uuid ↦ (elim (paxos_paxid_unpack b) [ none ↦ none | some base ↦ some (uuid, base) ])
]
welcome_ids _ = none

-- In a session that `session_new` has just made, and `state.enter` has returned `entered`.
unfoldable pub acceptor_ack_welcome : ℕ → ℕ → Header → Obj → M ℕ
unfolding welcome_acceptors welcome_acceptor welcome_instances find_hole welcome_parts welcome_ids
acceptor_ack_welcome entered source hdr o = do
  modify (λ s. record s {
    client_data = entered;
    ballot = hdr.ph_ballot;
    self_id = hdr.ph_inum;
    gen_high = hdr.ph_ballot.gen;
  })
  parts ← need assert_failed (welcome_parts o)
  ids ← need assert_failed (welcome_ids parts.0)
  modify (λ s. record s { session_id = ids.0; ibase = ids.1 })
  emit (sync_timer ids.0)
  modify (λ s. record s { live_count = 1 })
  welcome_acceptors source hdr parts.1 (do
    welcome_instances parts.2
    modify (λ s. record s { ihole = s.ibase })
    ilist ← gets (λ s. s.ilist)
    find_hole list_head ilist)

unfoldable pub paxos_hello : Acceptor → M ℕ
paxos_hello acc = do
  hdr ← gets (λ s. header_init s op_hello s.self_id)
  paxos_send acc (header_message hdr)

unfoldable pub do_continue_ack_welcome : Option ℕ → Acceptor → M ℕ
unfolding paxos_peer_init attach_peer paxos_hello
do_continue_ack_welcome chan acc = do
  let peer = paxos_peer_init chan
  modify (attach_peer acc.pa_paxid peer)
  if is_none peer then pure 0 else err_ret (paxos_hello (record acc { pa_peer = peer })) (pure 0)

-- If we thought that we were the proposer, the prepare ends.
unfoldable pub end_prepare : Session → Session
end_prepare s = if is_proposer s then record s { prep = none } else s

-- The peer is attached where there was none, and then the proposer may be another.
unfoldable pub reattach : ℕ → ℕ → M (Unit {0})
unfolding attach_peer
reattach source paxid = do
  modify (attach_peer paxid (some source))
  p ← proposer_paxid
  if ltb paxid p
      then (do modify end_prepare; modify (λ s. record s { proposer = some paxid }))
      else pure tt

-- The hello of an acceptor of the alist.
unfoldable pub known_hello : ℕ → Header → Acceptor → M ℕ
unfolding reattach
known_hello source hdr acc = do
  pax ← gets (λ s. s)
  (if is_none acc.pa_peer
      then reattach source acc.pa_paxid
      else if ltb hdr.ph_inum pax.self_id
      then (do
        emit_all (destroy_peer acc.pa_peer)
        modify (write_acceptor acc.pa_paxid (λ a. record a { pa_peer = some source })))
      else pure tt)
  p ← proposer_paxid
  (if hdr.ph_inum == p then modify (λ s. record s { ballot = hdr.ph_ballot }) else pure tt)
  pure 0

-- A hello from an acceptor whose join we have not learned is deferred.
unfoldable pub paxos_ack_hello : ℕ → Header → M ℕ
unfolding known_hello
paxos_ack_hello source hdr = do
  pax ← gets (λ s. s)
  if is_proposer pax && is_none pax.prep && ltb hdr.ph_inum pax.self_id
      then pure 0
      else (option_case (acceptor_find hdr.ph_inum pax.alist)
          ((do
            let acc : Acceptor = record {
              pa_paxid = hdr.ph_inum;
              pa_peer = some source;
              pa_desc = [];
            }
            modify (λ s. record s { adefer = (acceptor_insert acc s.adefer).0 })
            pure 0))
          (λ acc. known_hello source hdr acc))
