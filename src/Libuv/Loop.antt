-- ===== src/Libuv/Loop.antt =====
-- libuv/relay.cpp: what a thread's `uv_run` does with the callbacks. Libuv documents the order: a
-- read asks for one buffer and then hands out either one datagram without the chunk flag, or with
-- `recvmmsg` any number of datagrams with the flag, in regions of the buffer one behind the other, and
-- then once no bytes without the flag. A send's callback comes once, after the call of `uv_udp_send`
-- has returned, and between two reads.
pub mod Owned
pub mod Sending
pub mod Completion
pub mod Reading
pub mod Taking
pub mod Finishing
pub mod Peers
pub mod Clients
pub mod System
use urn.Prelude.{
  ℕ, ◌+◌, List, [], ◌∷◌, ◌++◌, Bool, true, false, length, take, Outcome, ok, ◌>>=◌, Address,
  no_address, update, Datagram,
}
use urn.Relay.Logic.{Tls}
use urn.Libuv.Buffers.{Send, Thread, alloc_buffer}
use urn.Libuv.Thread.{St, UdpSend, Nread, failed, done, on_client_read, on_peer_read, on_sent}

-- The part of a buffer for one datagram.
abbrev pub region_size : ℕ
region_size = 65536

abbrev pub cut : Datagram → List ℕ
cut d = take region_size d.bytes

-- The kernel writes a datagram.
unfoldable pub write_region : ℕ → Datagram → St → St
write_region a d st = record st {
  world = record (st.world) { memory = update st.world.memory a (cut d) };
}

abbrev pub ReadCallback : Type 0
ReadCallback = Nread → ℕ → Address → Bool → St → Outcome St

-- The datagrams of a `recvmmsg`, from a region of the buffer on.
unfoldable pub read_chunks : ReadCallback → ℕ → ℕ → List Datagram → St → Outcome St
unfolding write_region
read_chunks cb base a [] st = cb (done 0) base no_address false st
read_chunks cb base a (d ∷ ds) st = do
  st ← cb (done (length (cut d))) a d.address true (write_region a d st)
  read_chunks cb base (a + region_size) ds st

pub data Reads : Type 0 where
  read_error : Reads
  single : Datagram → Reads
  chunked : List Datagram → Reads

unfoldable pub hand_out : ReadCallback → ℕ → Reads → St → Outcome St
unfolding read_chunks write_region
hand_out cb base read_error st = cb failed base no_address false st
hand_out cb base (single d) st =
    cb (done (length (cut d))) base d.address false (write_region base d st)
hand_out cb base (chunked ds) st = read_chunks cb base base ds st

unfoldable pub read : ReadCallback → Reads → St → Outcome St
unfolding hand_out
read cb reads st = do
  (base, t) ← alloc_buffer st.world
  hand_out cb base reads (record st { world = t })

-- A send's bytes, as the memory has them.
abbrev pub on_wire : Send → (ℕ → List ℕ) → Datagram
on_wire s memory = record { address = s.to; bytes = take s.len (memory s.base) }

-- Libuv has sent `s`, which stood between `before` and `after`.
abbrev pub completed : List Send → Send → List Send → Thread → Thread
completed before s after t = record t {
  sending = before ++ after;
  sent = t.sent ++ (on_wire s t.memory ∷ []);
}
