-- ===== src/Libuv/Startup.antt =====
-- libuv/relay.hpp and libuv/relay.cpp: the relay's constructor, `run`, and `thread::start` with its two
-- listeners, for a Linux build (`recvmmsg`, `SO_REUSEPORT`). Whether a call of libuv or of the operating
-- system succeeds is a parameter.
pub mod Listening
mod Examples
use urn.Prelude.{
  ℕ, zero, suc, ◌*◌, Bool, true, false, List, [], ◌∷◌, Option, none, some, Outcome, ok, abort,
  ◌>>=◌, ◌>>◌, ensure, Address,
}
use urn.Relay.Logic.{Tls, Relay, init, on_thread_start}
use urn.Config.Numeric.{NumericConfig}
use urn.Libuv.Buffers.{Session}

pub data Callback : Type 0 where
  client_received peer_received : Callback

-- A bound address, and whether the socket could share its port and its address then.
pub record Binding : Type 0 where
  pub address : Address
  pub reuse_port : Bool
  pub reuse_addr : Bool

-- `uv_udp_t`
pub record Udp : Type 0 where
  pub recvmmsg : Bool
  pub reuse_port : Bool
  pub binding : Option Binding
  pub receiving : Option Callback

abbrev pub no_udp : Udp
no_udp = record { recvmmsg = false; reuse_port = false; binding = none; receiving = none }

-- `thread`, as far as `start` sets it up.
pub record Listener : Type 0 where
  pub id : ℕ
  pub client : Udp
  pub peer : Udp

pub record Timer : Type 0 where
  pub first_ms : ℕ
  pub repeat_ms : ℕ

pub data Call : Type 0 where
  uv_ip4_addr : ℕ → Call
  uv_loop_init uv_timer_init : Call
  uv_timer_start : Timer → Call
  uv_udp_init_ex : Udp → Call
  uv_fileno setsockopt_reuse_port : Udp → Call
  uv_udp_bind : Udp → Binding → Call
  uv_udp_recv_start : Udp → Callback → Call

-- `config::statistics_print_interval`
abbrev pub statistics_print_interval : ℕ
statistics_print_interval = 5

module _ (succeeds : Call → Bool) where
  abbrev pub libuv_call : Call → Outcome (Unit {0})
  libuv_call call = ensure (succeeds call) abort

  -- The address 0.0.0.0.
  unfoldable pub make_ip4_addr_any_with_port : ℕ → Outcome Address
  make_ip4_addr_any_with_port port = do
    libuv_call (uv_ip4_addr port)
    ok (record { sin_addr = 0; sin_port = port })

  unfoldable pub enable_reuse_port : Udp → Outcome Udp
  enable_reuse_port socket = do
    libuv_call (uv_fileno socket)
    libuv_call (setsockopt_reuse_port socket)
    ok (record socket { reuse_port = true })

  unfoldable pub start_udp_listener : Udp → ℕ → Callback → Outcome Udp
  unfolding make_ip4_addr_any_with_port enable_reuse_port
  start_udp_listener socket port cb = do
    let socket = record socket { recvmmsg = true }
    libuv_call (uv_udp_init_ex socket)
    socket ← enable_reuse_port socket
    addr ← make_ip4_addr_any_with_port port
    let binding : Binding = record {
      address = addr;
      reuse_port = socket.reuse_port;
      reuse_addr = true;
    }
    libuv_call (uv_udp_bind socket binding)
    let socket = record socket { binding = some binding }
    libuv_call (uv_udp_recv_start socket cb)
    ok (record socket { receiving = some cb })

  -- `thread::start`, up to the start of the system's thread.
  unfoldable pub thread_start : NumericConfig → ℕ → Outcome Listener
  unfolding start_udp_listener
  thread_start conf id = do
    libuv_call uv_loop_init
    client ← start_udp_listener no_udp conf.client_port client_received
    peer ← start_udp_listener no_udp conf.peer_port peer_received
    ok (record { id = id; client = client; peer = peer })

  -- The loop of `run` from thread `id`.
  unfoldable pub start_threads : NumericConfig → ℕ → ℕ → Outcome (List Listener)
  unfolding thread_start
  start_threads conf id zero = ok []
  start_threads conf id (suc left) = do
    thread ← thread_start conf id
    threads ← start_threads conf (suc id) left
    ok (thread ∷ threads)

  -- The relay's constructor: `alloc_address_`, and `logic_` for the threads.
  unfoldable pub make_relay : NumericConfig → Outcome (Address × Relay Session)
  unfolding make_ip4_addr_any_with_port
  make_relay conf = do
    alloc_address ← make_ip4_addr_any_with_port conf.client_port
    ok (alloc_address, init conf.threads)

  -- `run` up to the loop of its timer.
  unfoldable pub run : NumericConfig → Outcome (Timer × List Listener)
  unfolding start_threads
  run conf = do
    libuv_call uv_timer_init
    let timer : Timer = record { first_ms = 0; repeat_ms = statistics_print_interval * 1000 }
    libuv_call (uv_timer_start timer)
    threads ← start_threads conf 0 conf.threads
    ok (timer, threads)

-- The system's thread up to its loop.
unfoldable pub thread_main : Relay Session → Listener → Outcome Tls
thread_main relay thread = on_thread_start relay thread.id
