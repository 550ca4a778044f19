-- ===== src/Uring/Worker.antt =====
-- uring/relay.cpp: `uring::session::start_send`, the start of `worker` and its loop's switch.
pub mod Sending
pub mod Laws
pub mod Flight
pub mod Rearm
pub mod Invariant
pub mod Handled
pub mod Outcomes
pub mod Starting
pub mod System
pub mod Flow
pub mod Loop
pub mod Exit
use urn.Prelude.{
  ℕ, ◌-◌, ◌%◌, ◌^◌, leb, if◌then◌else◌, Outcome, ok, fault, ◌>>=◌, ◌>>◌, ensure, abort,
  out_of_bounds, length, take, ◌&&◌, Address, update,
}
use urn.Relay.Packet.{Packet}
use urn.Relay.Statistics.{Doubles}
use urn.Relay.Logic.{
  Tls, State, Library, on_client_received, on_peer_received, on_session_sent, on_statistics_tick,
}
use urn.Uring.Context.{
  Context, Session, Endpoint, RingEventType, rx, invalid, client_rx, peer_rx, peer_tx, timer,
  memory_per_packet, k_statistics_timeout_ms, is_main_worker,
}
use urn.Uring.Events.{
  alloc_event, release_event, add_recvmsg, add_sendmsg, add_timeout, iov_base, address_of,
}

abbrev pub St : Type 0
St = State Session Context

-- `memcpy(tx_event->rx.iov.iov_base, packet.data(), packet.size())`, into a region of
-- `memory_per_packet` bytes.
unfoldable pub copy_out : ℕ → Packet → Context → Outcome Context
copy_out base packet io = do
  ensure (leb packet.length memory_per_packet && leb packet.length (length packet.content))
      out_of_bounds
  ok (record io {
    messages_buffer = update io.messages_buffer base (take packet.length packet.content);
  })

-- The writes to `tx_event->rx.address` and `tx_event->rx.iov.iov_len`.
unfoldable pub address_tx : ℕ → Address → ℕ → Context → Context
address_tx ev a len io = record io {
  io_events =
      update io.io_events ev
        (record (io.io_events ev) { body = rx (iov_base (io.io_events ev).body) len a });
}

-- `uring::session::start_send`
unfoldable pub start_send : Session → Packet → Context → Outcome Context
start_send session packet io = do
  (tx_event, io) ← alloc_event peer_tx io
  io ← copy_out (iov_base (io.io_events tx_event).body) packet io
  add_sendmsg tx_event io.client_socket
      (address_tx tx_event session.client_endpoint.address packet.length io)

-- The library that urn/relay.hpp is used with here: receives are restarted by the worker's loop.
abbrev pub uring : Library Endpoint Session Context
uring = record {
  make_session = λ client_endpoint. record { client_endpoint = client_endpoint };
  client_start_receive = λ io. io;
  peer_start_receive = λ io. io;
  start_send = λ tls session packet st. do
    io ← start_send session packet st.world
    ok (record st { world = io });
}

-- `cqe->res`: an error number, or a count of bytes.
pub data Res : Type 0 where
  failed : ℕ → Res
  done : ℕ → Res

-- `(uint32_t) cqe->res`
unfoldable pub to_uint32 : Res → ℕ
to_uint32 (failed errno) = (2 ^ 32 - errno) % 2 ^ 32
to_uint32 (done n) = n % 2 ^ 32

-- `if (cqe->res < 0) abort();`, and the count.
unfoldable pub check_res : Res → Outcome ℕ
check_res (failed errno) = fault abort
check_res (done n) = ok n

-- `packet{iov_base, length}`
unfoldable pub packet_at : ℕ → ℕ → Context → Packet
packet_at ev n io = record {
  address = iov_base (io.io_events ev).body;
  content = io.messages_buffer (iov_base (io.io_events ev).body);
  length = n;
}

unfoldable pub endpoint_at : ℕ → Context → Endpoint
endpoint_at ev io = record {
  address = address_of (io.io_events ev).body;
  user_data = io.thread_index;
}

-- The release of an event and the next receive of its kind.
unfoldable pub rearm : ℕ → RingEventType → ℕ → Context → Outcome Context
rearm event kind socket_id io = do
  (rx_event, io) ← alloc_event kind (release_event event io)
  add_recvmsg rx_event socket_id io

abbrev pub in_world : (Context → Outcome Context) → St → Outcome St
in_world f st = do io ← f st.world; ok (record st { world = io })

module _ (d : Doubles) (tls : Tls) where
  unfoldable pub on_peer_rx : ℕ → Res → St → Outcome St
  on_peer_rx event res st = do
    n ← check_res res
    let io = st.world
    (_, st) ← on_peer_received uring tls (endpoint_at event io) (packet_at event (n % 2 ^ 32) io) st
    in_world (rearm event peer_rx io.peer_socket) st

  unfoldable pub on_peer_tx : ℕ → Res → St → Outcome St
  on_peer_tx event res st = do
    st ← on_session_sent uring tls (packet_at event (to_uint32 res) st.world) st
    ok (record st { world = release_event event st.world })

  unfoldable pub on_client_rx : ℕ → Res → St → Outcome St
  on_client_rx event res st = do
    n ← check_res res
    let io = st.world
    st ← on_client_received uring tls (endpoint_at event io) (packet_at event n io) st
    in_world (rearm event client_rx io.client_socket) st

  unfoldable pub on_timer : ℕ → St → Outcome St
  on_timer event st = do
    (_, st) ← on_statistics_tick d 5 st
    in_world (add_timeout event k_statistics_timeout_ms) st

  unfoldable pub dispatch : RingEventType → ℕ → Res → St → Outcome St
  dispatch peer_rx event res st = on_peer_rx event res st
  dispatch peer_tx event res st = on_peer_tx event res st
  dispatch client_rx event res st = on_client_rx event res st
  dispatch timer event res st = on_timer event st
  dispatch invalid event res st = ok (record st { world = release_event event st.world })

  -- The body of `io_uring_for_each_cqe`.
  unfoldable pub on_cqe : ℕ → Res → St → Outcome St
  unfolding dispatch on_peer_rx on_peer_tx on_client_rx on_timer
  on_cqe event res st = dispatch (st.world.io_events event).kind event res st

-- The blocks of `worker` that put the first receive on a socket, and the timer, into the ring.
unfoldable pub first_receive : RingEventType → (Context → ℕ) → Context → Outcome Context
first_receive kind socket io = do (ev, io) ← alloc_event kind io; add_recvmsg ev (socket io) io

unfoldable pub first_timeout : Context → Outcome Context
first_timeout io = do (ev, io) ← alloc_event timer io; add_timeout ev k_statistics_timeout_ms io

-- `worker` from `on_thread_start` to its loop.
unfoldable pub start_receives : Context → Outcome Context
unfolding first_receive first_timeout
start_receives io = do
  io ← first_receive client_rx (λ io. io.client_socket) io
  io ← first_receive peer_rx (λ io. io.peer_socket) io
  if is_main_worker io then first_timeout io else ok io

-- `io_uring_submit_and_wait`: nothing is left to be submitted.
unfoldable pub submit : Context → Context
submit io = record io { unsubmitted = 0 }
