-- ===== src/Uring/Startup.antt =====
-- uring/relay.cpp: `run`, and `worker` from its start to its loop. Whether a call of the operating system or of
-- io_uring succeeds is a parameter. A worker opens its sockets, waits at the latch for all workers, and
-- then binds them: in between, the other workers open theirs.
pub mod Ready
pub mod Runs
mod Examples
use urn.Prelude.{
  ℕ, zero, suc, ◌+◌, ◌-◌, ◌*◌, Bool, List, [], ◌∷◌, ◌++◌, Outcome, ok, abort, ◌>>=◌, ◌>>◌, ensure,
  ◌==◌, if◌then◌else◌, length,
}
use urn.Sockets.{
  Address, local_client_address, local_peer_address, SocketOption, so_rcvbuf, so_sndbuf,
  so_reuseaddr, so_reuseport, Socket, edit, add_option, add_address, new_socket,
}
use urn.Relay.Logic.{Tls, Relay, on_thread_start}
use urn.Latch.{CountdownLatch, countdown_latch}
use urn.Uring.Context.{Context, Session, num_events, memory_per_packet, listen_context_initialize}
use urn.Uring.Worker.{start_receives}

pub data Call : Type 0 where
  getaddrinfo : Address → Call
  io_uring_queue_init_params : Call
  socket : Address → Call
  setsockopt : ℕ → SocketOption → Call
  io_uring_register_files : List ℕ → Call
  io_uring_register_buffers : ℕ → Call
  bind : ℕ → Address → Call

-- `worker_args`; the relay and the two addresses are the same for all workers.
pub record WorkerArgs : Type 0 where
  pub thread_index : ℕ
  pub startup_latch : CountdownLatch

-- What `listen_context_initialize` makes besides the events: the descriptors, the table of registered
-- files, and the bytes of the registered buffer.
pub record ListenContext : Type 0 where
  pub worker_info : WorkerArgs
  pub client_socket_fd : ℕ
  pub peer_socket_fd : ℕ
  pub files : List ℕ
  pub buffer_bytes : ℕ
  pub context : Context

module _ (succeeds : List Socket → Call → Bool) where
  abbrev pub ensure_success : Call → List Socket → Outcome (Unit {0})
  ensure_success call sockets = ensure (succeeds sockets call) abort

  unfoldable pub set_option : ℕ → SocketOption → List Socket → Outcome (List Socket)
  set_option fd option sockets = do
    ensure_success (setsockopt fd option) sockets
    ok (edit fd (add_option option) sockets)

  unfoldable pub create_udp_socket : Address → List Socket → Outcome (ℕ × List Socket)
  unfolding set_option
  create_udp_socket address sockets = do
    ensure_success (socket address) sockets
    let socket_fd = length sockets
    k ← set_option socket_fd so_rcvbuf (sockets ++ (new_socket address ∷ []))
    k ← set_option socket_fd so_sndbuf k
    k ← set_option socket_fd so_reuseaddr k
    k ← set_option socket_fd so_reuseport k
    ok (socket_fd, k)

  unfoldable pub bind_socket : ℕ → Address → List Socket → Outcome (List Socket)
  bind_socket fd address sockets = do
    ensure_success (bind fd address) sockets
    ok (edit fd (add_address address) sockets)

  -- `listen_context_initialize`, with registered files and buffers.
  unfoldable pub open_context : WorkerArgs → List Socket → Outcome (ListenContext × List Socket)
  unfolding create_udp_socket
  open_context args sockets = do
    ensure_success io_uring_queue_init_params sockets
    (client_socket_fd, k) ← create_udp_socket local_client_address sockets
    (peer_socket_fd, k) ← create_udp_socket local_peer_address k
    let files = peer_socket_fd ∷ client_socket_fd ∷ []
    ensure_success (io_uring_register_files files) k
    let buffer_bytes = num_events * memory_per_packet
    ensure_success (io_uring_register_buffers buffer_bytes) k
    ok (
      record {
        worker_info = args;
        client_socket_fd = client_socket_fd;
        peer_socket_fd = peer_socket_fd;
        files = files;
        buffer_bytes = buffer_bytes;
        context = listen_context_initialize args.thread_index;
      },
      k,
    )

  -- `worker` behind the latch, up to its loop.
  unfoldable pub begin_worker :
      Relay Session → ListenContext → List Socket → Outcome (Tls × Context × List Socket)
  unfolding bind_socket
  begin_worker relay io sockets = do
    k ← bind_socket io.client_socket_fd local_client_address sockets
    k ← bind_socket io.peer_socket_fd local_peer_address k
    tls ← on_thread_start relay io.worker_info.thread_index
    context ← start_receives io.context
    ok (tls, context, k)

abbrev pub make_worker_args : CountdownLatch → ℕ → WorkerArgs
make_worker_args latch thread_index = record { thread_index = thread_index; startup_latch = latch }

-- The loop of `run` from thread `i`, and the call of `worker` on the main thread.
unfoldable pub start_workers : CountdownLatch → ℕ → ℕ → List WorkerArgs
start_workers latch i zero = make_worker_args latch 0 ∷ []
start_workers latch i (suc left) = make_worker_args latch i ∷ start_workers latch (suc i) left

-- `std::max(uint16_t(1), config_.threads)`
abbrev pub thread_count_of : ℕ → ℕ
thread_count_of threads = if threads == 0 then 1 else threads

-- The workers that `run` starts, in the order of their starts.
unfoldable pub run : (List Socket → Call → Bool) → ℕ → Outcome (List WorkerArgs)
unfolding start_workers
run succeeds threads = do
  let thread_count = thread_count_of threads
  ensure_success succeeds (getaddrinfo local_client_address) []
  ensure_success succeeds (getaddrinfo local_peer_address) []
  ok (start_workers (countdown_latch thread_count) 1 (thread_count - 1))
