-- ===== src/Mmsg/Worker.antt =====
-- mmsg/relay.cpp: `mmsg::session::start_send`, the two receive frames, and the loop of
-- `worker`.
pub mod Receiving
pub mod Queue
pub mod Forwards
pub mod Registrations
pub mod Turn
pub mod Turns
use urn.Prelude.{
  ℕ, zero, suc, List, [], ◌∷◌, Option, none, some, ltb, leb, length, Outcome, ok, fault, abort,
  out_of_bounds, ◌>>=◌, ◌>>◌, ensure, Address, update, Bool, true, false, if◌then◌else◌, Datagram,
}
use urn.Relay.Packet.{Packet}
use urn.Relay.Statistics.{Doubles}
use urn.Relay.Logic.{
  Tls, State, Library, on_session_sent_with, on_client_received, on_peer_received,
  on_statistics_tick,
}
use urn.Mmsg.Vectors.{
  IoVectors, IoState, IoWorker, Received, recv_error, datagrams, written, io_worker_begin_frame,
}
use urn.Mmsg.Sending.{Answer, io_run_client_send_frame}

pub record Session : Type 0 where
  pub client_endpoint : Address

abbrev pub St : Type 0
St = State Session IoWorker

-- The writes to the vectors for transmission, and to `tx_length`. A packet is its region of memory
-- and its length.
unfoldable pub enqueue : Address → ℕ → ℕ → IoWorker → Outcome IoWorker
enqueue client_endpoint base len io = do
  let index = io.clients_io.tx_length
  let tx = io.clients_io.tx
  ensure (ltb index tx.capacity) out_of_bounds
  ok (record io {
    clients_io = record (io.clients_io) {
      tx_length = suc index;
      tx = record tx {
        addresses = update tx.addresses index client_endpoint;
        iov_base = update tx.iov_base index base;
        iov_len = update tx.iov_len index len;
      };
    };
  })

-- `mmsg::session::start_send`. The relay's `peer_.start_receive()` does nothing here.
unfoldable pub start_send : Tls → Session → Packet → St → Outcome St
unfolding enqueue
start_send tls session packet st = do
  io ← enqueue session.client_endpoint packet.address packet.length st.world
  on_session_sent_with (λ st. st) tls packet (record st { world = io })

-- The library that urn/relay.hpp is used with here.
abbrev pub mmsg : Library Address Session IoWorker
mmsg = record {
  make_session = λ client_endpoint. record { client_endpoint = client_endpoint };
  client_start_receive = λ io. io;
  peer_start_receive = λ io. io;
  start_send = start_send;
}

-- `packet{iov_base, msg_len}` of a received message.
unfoldable pub rx_packet : IoVectors → (ℕ → List ℕ) → ℕ → Packet
rx_packet rx mem i = record {
  address = rx.iov_base i;
  content = mem (rx.iov_base i);
  length = rx.msg_len i;
}

-- `recvmmsg` on the peer socket and on the client socket.
unfoldable pub receive_peers : List Datagram → IoWorker → IoWorker
receive_peers ds io =
    let r = written ds 0 (io.peers_io.rx, io.message_mem) in
    record io { message_mem = r.1; peers_io = record (io.peers_io) { rx = r.0 } }

unfoldable pub receive_clients : List Datagram → IoWorker → IoWorker
receive_clients ds io =
    let r = written ds 0 (io.clients_io.rx, io.message_mem) in
    record io { message_mem = r.1; clients_io = record (io.clients_io) { rx = r.0 } }

-- The two loops over `messages_received`: what is left of it, and the index.
unfoldable pub peer_loop : Tls → ℕ → ℕ → St → Outcome St
peer_loop tls zero i st = ok st
peer_loop tls (suc n) i st = do
  let rx = st.world.peers_io.rx
  (_, st) ← on_peer_received mmsg tls (rx.addresses i) (rx_packet rx st.world.message_mem i) st
  peer_loop tls n (suc i) st

unfoldable pub client_loop : Tls → ℕ → ℕ → St → Outcome St
client_loop tls zero i st = ok st
client_loop tls (suc n) i st = do
  let rx = st.world.clients_io.rx
  st ← on_client_received mmsg tls (rx.addresses i) (rx_packet rx st.world.message_mem i) st
  client_loop tls n (suc i) st

unfoldable pub io_run_peer_receive_frame : Tls → Received → St → Outcome St
unfolding peer_loop receive_peers
io_run_peer_receive_frame tls recv_error st = fault abort
io_run_peer_receive_frame tls (datagrams ds) st =
    peer_loop tls (length ds) 0 (record st { world = receive_peers ds st.world })

unfoldable pub io_run_client_receive_frame : Tls → Received → St → Outcome St
unfolding client_loop receive_clients
io_run_client_receive_frame tls recv_error st = fault abort
io_run_client_receive_frame tls (datagrams ds) st =
    client_loop tls (length ds) 0 (record st { world = receive_clients ds st.world })

-- What `poll` finds: for each socket that is ready what `recvmmsg` answers, and whether the timer has
-- expired, with a flag for a `read` of it that succeeds.
pub record Poll : Type 0 where
  pub client : Option Received
  pub peer : Option Received
  pub timer : Option Bool

abbrev pub when_ready : {A : Type 0} → Option A → (A → St → Outcome St) → St → Outcome St
when_ready none run st = ok st
when_ready (some a) run st = run a st

unfoldable pub on_timer : Doubles → Bool → St → Outcome St
on_timer d readable st = do ensure readable abort; (_, st) ← on_statistics_tick d 5 st; ok st

-- One turn of the loop of `worker` to the send frame.
unfoldable pub receive_frames : Doubles → Tls → Poll → St → Outcome St
unfolding io_run_client_receive_frame io_run_peer_receive_frame on_timer io_worker_begin_frame
receive_frames d tls poll st = do
  let st = record st { world = io_worker_begin_frame st.world }
  st ← when_ready poll.client (io_run_client_receive_frame tls) st
  st ← when_ready poll.peer (io_run_peer_receive_frame tls) st
  when_ready poll.timer (on_timer d) st

-- One turn of the loop of `worker`; the number is how many messages the send frame still holds.
unfoldable pub turn : Doubles → Tls → Poll → List Answer → St → Outcome (ℕ × St)
unfolding receive_frames io_run_client_send_frame
turn d tls poll answers st = do
  st ← receive_frames d tls poll st
  l ← io_run_client_send_frame answers st.world
  ok (l.remaining, record st { world = l.io })

-- The loop of `worker`, for some turns: what `poll` finds in each, and the answers to its sends.
unfoldable pub turns : Doubles → Tls → List (Poll × List Answer) → St → Outcome St
unfolding turn
turns d tls [] st = ok st
turns d tls ((poll, answers) ∷ rest) st = do
  (_, st) ← turn d tls poll answers st
  turns d tls rest st
