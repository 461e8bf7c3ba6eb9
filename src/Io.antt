-- ===== src/Io.antt =====
-- The write side of libmotmot/src/paxos_io.c: a peer's buffer, and the sources that wait for its
-- channel. A callback that returns FALSE is a source that GLib removes; what the channel does with a
-- write is a parameter of each write.
use motmot.Base.{
  ℕ, ◌+◌, ◌-◌, Bool, true, false, List, [], ◌∷◌, ◌++◌, Option, none, some, ltb, length, take, drop,
  if◌then◌else◌,
}
pub mod Fifo
pub mod Framing
pub mod Reading

-- `pp_write_buffer`, the numbers of sources for G_IO_IN and G_IO_OUT with this peer as their data,
-- and the bytes that the channel has taken.
pub record Peer : Type 0 where
  pub write_buffer : List ℕ
  pub in_watches : ℕ
  pub out_watches : ℕ
  pub channel : List ℕ

-- paxos_peer_init, for a channel that is not NULL
abbrev pub peer_init : Peer
peer_init = record { write_buffer = []; in_watches = 1; out_watches = 0; channel = [] }

abbrev pub is_empty : List ℕ → Bool
is_empty [] = true
is_empty (x ∷ l) = false

-- paxos_register_connection of paxos.c: 1 for a channel that is NULL, for which there is no peer.
unfoldable pub paxos_register_connection : Bool → ℕ × Option Peer
paxos_register_connection is_null = if is_null then (1, none) else (0, some peer_init)

-- paxos_peer_destroy, for the sources: what the write buffer holds is dropped.
unfoldable pub peer_destroy : Peer → Peer
peer_destroy p = record p { write_buffer = []; in_watches = 0; out_watches = 0 }

-- The body of paxos_peer_send. A read of the length comes before the append.
unfoldable pub peer_send : List ℕ → Peer → Peer
peer_send data' p = record p {
  write_buffer = p.write_buffer ++ data';
  out_watches =
      if is_empty p.write_buffer
      then (if ltb 0 (length data') then p.out_watches + 1 else p.out_watches)
      else p.out_watches;
}

-- `g_io_channel_write_chars`: its status, and `bytes_written`. G_IO_STATUS_EOF is the channel's end.
pub data Status : Type 0 where
  normal error again eof : Status

-- `g_string_erase`
unfoldable pub erase_written : ℕ → Peer → Peer
erase_written n p = record p {
  write_buffer = drop n p.write_buffer;
  channel = p.channel ++ take n p.write_buffer;
}

-- Once the buffer is empty, all the peer's sources are removed, and one is added for G_IO_IN.
unfoldable pub await_input : Peer → Peer
await_input p = if is_empty p.write_buffer then record p { in_watches = 1; out_watches = 0 } else p

-- How the callback ends: it returns TRUE; it returns FALSE; or it calls paxos_peer_read and returns
-- FALSE.
pub data Ending : Type 0 where
  keeps removes reads_and_removes : Ending

-- The callback, up to its end, with what the channel does: the status, the number of bytes written,
-- and whether there is input at the end.
unfoldable pub paxos_peer_write : Status → ℕ → Bool → Peer → Ending × Peer
unfolding erase_written await_input
paxos_peer_write status n input p = if is_empty p.write_buffer then (keeps, p) else (elim status [
  | normal ↦ (keeps, await_input (erase_written n p))
  | error ↦ (keeps, await_input (erase_written n p))
  | again ↦ (keeps, await_input (erase_written n p))
  | eof ↦ (if input then reads_and_removes else removes, await_input (erase_written n p))
])

-- GLib removes the source whose callback has returned FALSE.
unfoldable pub remove_source : Ending → Peer → Peer
remove_source keeps p = p
remove_source removes p = record p { out_watches = p.out_watches - 1 }
remove_source reads_and_removes p = record p { out_watches = p.out_watches - 1 }

-- A run of a G_IO_OUT source, but for what a paxos_peer_read at its end does.
unfoldable pub writable : Status → ℕ → Bool → Peer → Peer
unfolding paxos_peer_write remove_source
writable status n input p =
    let (ending, q) = paxos_peer_write status n input p in remove_source ending q
