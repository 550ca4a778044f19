-- ===== src/Mmsg/Startup.antt =====
-- mmsg/relay.cpp: `run` with the functions on sockets, and the start of `worker`. Whether a call
-- of the operating system succeeds is a parameter.
pub mod Binding
pub mod Ready
pub mod Service
mod Examples
use urn.Prelude.{
  ℕ, Option, none, some, zero, suc, ◌+◌, ◌-◌, Bool, true, false, List, [], ◌∷◌, ◌++◌, Outcome, ok,
  abort, out_of_bounds, ◌>>=◌, ◌>>◌, ensure, or_fault, ◌==◌, if◌then◌else◌, length, get_elem?,
}
use urn.Sockets.{
  Address, local_client_address, local_peer_address, SocketOption, so_rcvbuf, so_sndbuf,
  so_reuseaddr, so_reuseport, Socket, edit, set_flag, add_option, add_filter, add_address,
  new_socket,
}
use urn.Relay.Logic.{Tls, Relay, on_thread_start}
use urn.Latch.{CountdownLatch, countdown_latch}
use urn.Mmsg.Vectors.{IoWorker, io_worker_init}
use urn.Mmsg.Worker.{Session}

-- The statistics timer's setting, in seconds; `absolute` is the flag TFD_TIMER_ABSTIME.
pub record ItimerSpec : Type 0 where
  pub it_interval : ℕ
  pub it_value : ℕ
  pub absolute : Bool

pub data Call : Type 0 where
  getaddrinfo : Address → Call
  socket : Address → Call
  fcntl_getfl : ℕ → Call
  fcntl_setfl : ℕ → Call
  setsockopt : ℕ → SocketOption → Call
  attach_reuseport_cbpf : ℕ → Call
  bind : ℕ → Address → Call
  timerfd_create : Call
  timerfd_settime : ItimerSpec → Call

pub record IoWorkerArgs : Type 0 where
  pub worker_index : ℕ
  pub client_socket : ℕ
  pub peer_socket : ℕ
  pub latch : CountdownLatch

-- The two vectors of `run`, and the sockets.
pub record Sockets : Type 0 where
  pub client_sockets : List ℕ
  pub peer_sockets : List ℕ
  pub sockets : List Socket

module _ (succeeds : List Socket → Call → Bool) where
  -- `ensure_success`, for the answer to a call.
  abbrev pub ensure_success : Call → List Socket → Outcome (Unit {0})
  ensure_success call sockets = ensure (succeeds sockets call) abort

  unfoldable pub set_nonblocking : ℕ → List Socket → Outcome (List Socket)
  set_nonblocking sfd sockets = do
    ensure_success (fcntl_getfl sfd) sockets
    ensure_success (fcntl_setfl sfd) sockets
    ok (edit sfd set_flag sockets)

  unfoldable pub set_option : ℕ → SocketOption → List Socket → Outcome (List Socket)
  set_option fd option sockets = do
    ensure_success (setsockopt fd option) sockets
    ok (edit fd (add_option option) sockets)

  unfoldable pub create_udp_socket : Address → List Socket → Outcome (ℕ × List Socket)
  unfolding set_nonblocking set_option
  create_udp_socket address sockets = do
    ensure_success (socket address) sockets
    let socket_fd = length sockets
    k ← set_nonblocking socket_fd (sockets ++ (new_socket address ∷ []))
    k ← set_option socket_fd so_rcvbuf k
    k ← set_option socket_fd so_sndbuf k
    k ← set_option socket_fd so_reuseaddr k
    k ← set_option socket_fd so_reuseport k
    ok (socket_fd, k)

  -- A failure is `error`, which ends the process as well.
  unfoldable pub attach_bpf : ℕ → List Socket → Outcome (List Socket)
  attach_bpf fd sockets = do
    ensure_success (attach_reuseport_cbpf fd) sockets
    ok (edit fd add_filter sockets)

  unfoldable pub bind_socket : ℕ → Address → List Socket → Outcome (List Socket)
  bind_socket fd address sockets = do
    ensure_success (bind fd address) sockets
    ok (edit fd (add_address address) sockets)

  -- The first loop of `run`, for the threads that are left.
  unfoldable pub create_loop : ℕ → Sockets → Outcome Sockets
  unfolding create_udp_socket attach_bpf
  create_loop zero s = ok s
  create_loop (suc left) s = do
    (client_socket, k) ← create_udp_socket local_client_address s.sockets
    (peer_socket, k) ← create_udp_socket local_peer_address k
    k ← attach_bpf client_socket k
    k ← attach_bpf peer_socket k
    create_loop left (record {
      client_sockets = s.client_sockets ++ (client_socket ∷ []);
      peer_sockets = s.peer_sockets ++ (peer_socket ∷ []);
      sockets = k;
    })

  -- The second loop, from thread `i`.
  unfoldable pub bind_loop : ℕ → ℕ → Sockets → Outcome Sockets
  unfolding bind_socket
  bind_loop i zero s = ok s
  bind_loop i (suc left) s = do
    client_socket ← or_fault (get_elem? s.client_sockets i) out_of_bounds
    peer_socket ← or_fault (get_elem? s.peer_sockets i) out_of_bounds
    k ← bind_socket client_socket local_client_address s.sockets
    k ← bind_socket peer_socket local_peer_address k
    bind_loop (suc i) left (record s { sockets = k })

abbrev pub create_worker_args : CountdownLatch → Sockets → ℕ → Outcome IoWorkerArgs
create_worker_args latch s worker_index = do
  peer_socket ← or_fault (get_elem? s.peer_sockets worker_index) out_of_bounds
  client_socket ← or_fault (get_elem? s.client_sockets worker_index) out_of_bounds
  ok (record {
    worker_index = worker_index;
    client_socket = client_socket;
    peer_socket = peer_socket;
    latch = latch;
  })

-- A call of `worker`, and the sockets as they are at that moment.
pub record Start : Type 0 where
  pub args : IoWorkerArgs
  pub sockets : List Socket

-- The threads of the third loop, from thread `i`, and the call of `worker` on the main thread.
unfoldable pub start_workers : CountdownLatch → Sockets → ℕ → ℕ → Outcome (List Start)
start_workers latch s i zero = do
  main ← create_worker_args latch s 0
  ok (record { args = main; sockets = s.sockets } ∷ [])
start_workers latch s i (suc left) = do
  args ← create_worker_args latch s i
  rest ← start_workers latch s (suc i) left
  ok (record { args = args; sockets = s.sockets } ∷ rest)

-- `std::max(uint16_t(1), config_.threads)`
abbrev pub thread_count_of : ℕ → ℕ
thread_count_of threads = if threads == 0 then 1 else threads

-- The workers that `run` starts, in the order of their starts.
unfoldable pub run : (List Socket → Call → Bool) → ℕ → Outcome (List Start)
unfolding create_loop bind_loop start_workers
run succeeds threads = do
  let thread_count = thread_count_of threads
  ensure_success succeeds (getaddrinfo local_client_address) []
  ensure_success succeeds (getaddrinfo local_peer_address) []
  s ←
      create_loop succeeds thread_count
        (record { client_sockets = []; peer_sockets = []; sockets = [] })
  s ← bind_loop succeeds 0 thread_count s
  start_workers (countdown_latch thread_count) s 1 (thread_count - 1)

abbrev pub timer_setting : ItimerSpec
timer_setting = record { it_interval = 5; it_value = 5; absolute = true }

module _ (succeeds : List Socket → Call → Bool) where
  -- The main worker's timer is set.
  unfoldable pub start_timer : ℕ → List Socket → Outcome (Option ItimerSpec)
  start_timer worker_index sockets =
      if worker_index == 0
      then (ensure_success succeeds (timerfd_settime timer_setting) sockets
          >> ok (some timer_setting))
      else ok none

  -- `worker` up to its loop; its file descriptors stay in `args`. It goes on where the affinity cannot
  -- be set, and where it has waited at the latch.
  unfoldable pub begin_worker :
      List Socket → Relay Session → IoWorkerArgs → Outcome (Tls × IoWorker × Option ItimerSpec)
  unfolding start_timer
  begin_worker sockets relay args = do
    ensure_success succeeds timerfd_create sockets
    timer ← start_timer args.worker_index sockets
    tls ← on_thread_start relay args.worker_index
    ok (tls, io_worker_init args.worker_index, timer)
