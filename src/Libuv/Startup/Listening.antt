-- ===== src/Libuv/Startup/Listening.antt =====
-- libuv/relay.cpp: what the threads of `run` listen to.
use urn.Prelude.{
  ℕ, zero, suc, ◌+◌, ◌≡◌, refl, Bool, true, List, [], ◌∷◌, some, ok, length, length-replicate,
  arith, ltb, Address,
}
use urn.Relay.Statistics.{no_statistics}
use urn.Relay.Logic.{Relay, init, on_thread_start}
use urn.Relay.Logic.Counters.{IsStarted}
use urn.Config.Numeric.{NumericConfig}
use urn.Libuv.Buffers.{Session}
use urn.Libuv.Startup.{
  Callback, client_received, peer_received, Udp, no_udp, Binding, Listener, Timer, Call,
  uv_udp_init_ex, uv_fileno, setsockopt_reuse_port, uv_udp_bind, uv_udp_recv_start, uv_timer_init,
  uv_timer_start, make_ip4_addr_any_with_port, enable_reuse_port, start_udp_listener, thread_start,
  start_threads, make_relay, run, thread_main,
}

-- A socket that receives on a port of all addresses, and shares the port with those of other threads.
abbrev pub listening : ℕ → Callback → Udp
listening port cb = record {
  recvmmsg = true;
  reuse_port = true;
  binding = some (record {
    address = record { sin_addr = 0; sin_port = port };
    reuse_port = true;
    reuse_addr = true;
  });
  receiving = some cb;
}

abbrev listener : NumericConfig → ℕ → Listener
listener conf id = record {
  id = id;
  client = listening conf.client_port client_received;
  peer = listening conf.peer_port peer_received;
}

abbrev listeners : NumericConfig → ℕ → ℕ → List Listener
listeners conf id zero = []
listeners conf id (suc left) = listener conf id ∷ listeners conf (suc id) left

-- The threads from `id` on, over a relay.
abbrev pub AllListen : NumericConfig → Relay Session → ℕ → List Listener → Type 0
AllListen conf relay id [] = Unit {0}
AllListen conf relay id (t ∷ rest) =
    (t.client ≡ listening conf.client_port client_received)
    × (t.peer ≡ listening conf.peer_port peer_received)
    × (thread_main relay t ≡ ok (some id))
    × IsStarted id (length relay.per_thread_statistics) (some id)
    × AllListen conf relay (suc id) rest

module _ (succeeds : Call → Bool) (all_succeed : (call : Call) → succeeds call ≡ true) where
  make_ip4_addr-any :
      (port : ℕ)
      → make_ip4_addr_any_with_port succeeds port ≡ ok (record { sin_addr = 0; sin_port = port })
  unfolding make_ip4_addr_any_with_port
  make_ip4_addr-any port = rw all_succeed refl

  start_udp_listener-listening :
      (port : ℕ) (cb : Callback)
      → start_udp_listener succeeds no_udp port cb ≡ ok (listening port cb)
  unfolding start_udp_listener enable_reuse_port
  start_udp_listener-listening port cb =
      let s₀ = record no_udp { recvmmsg = true } in
      let s₁ = record s₀ { reuse_port = true } in
      let binding : Binding = record {
        address = record { sin_addr = 0; sin_port = port };
        reuse_port = true;
        reuse_addr = true;
      } in
      rw
        (
          all_succeed (uv_udp_init_ex s₀),
          all_succeed (uv_fileno s₀),
          all_succeed (setsockopt_reuse_port s₀),
          make_ip4_addr-any port,
          all_succeed (uv_udp_bind s₁ binding),
          all_succeed (uv_udp_recv_start (record s₁ { binding = some binding }) cb),
        )
        refl

  start_threads-listeners :
      (conf : NumericConfig) (id left : ℕ)
      → start_threads succeeds conf id left ≡ ok (listeners conf id left)
  unfolding start_threads thread_start
  start_threads-listeners conf id zero = refl
  start_threads-listeners conf id (suc left) =
      rw
        (
          all_succeed,
          start_udp_listener-listening conf.client_port client_received,
          start_udp_listener-listening conf.peer_port peer_received,
          start_threads-listeners conf (suc id) left,
        )
        refl

  listeners-AllListen :
      (conf : NumericConfig) (n id left : ℕ)
      → id + left ≡ n
      → AllListen conf (init n) id (listeners conf id left)
  unfolding thread_main on_thread_start init
  listeners-AllListen conf n id zero e = tt
  listeners-AllListen conf n id (suc left) e =
      let many = length-replicate n no_statistics in
      let known : ltb id (length (init {Session = Session} n).per_thread_statistics) ≡ true =
        ground (arith, many) in
      (
        refl,
        refl,
        rw known refl,
        record { is_set = refl; in_range = omega (arith, many) },
        listeners-AllListen conf n (suc id) left (omega arith),
      )

  length-listeners : (conf : NumericConfig) (id left : ℕ) → length (listeners conf id left) ≡ left
  length-listeners conf id zero = refl
  length-listeners conf id (suc left) = omega (arith, length-listeners conf (suc id) left)

  -- Where every call succeeds, for every configuration: the relay is made with the statistics of as
  -- many threads as configured, its statistics are printed at once and then every five seconds, and as many
  -- threads run. The sockets of each receive on all addresses at the configured ports with the
  -- callbacks of their sides, and share the ports: `SO_REUSEPORT` is set before each is bound. Each
  -- thread gets the statistics of its own index, and is started as the theorems on its loop need.
  pub run-AllListen :
      (conf : NumericConfig)
      → (timer : Timer) × (threads : List Listener) × (run succeeds conf ≡ ok (timer, threads))
        × (timer ≡ record { first_ms = 0; repeat_ms = 5000 })
        × (length threads ≡ conf.threads)
        × (address : Address) × (relay : Relay Session) × (make_relay succeeds conf
            ≡ ok (address, relay))
        × (length relay.per_thread_statistics ≡ conf.threads)
        × AllListen conf relay 0 threads
  unfolding run make_relay init
  run-AllListen conf = (
    record { first_ms = 0; repeat_ms = 5000 },
    listeners conf 0 conf.threads,
    rw
        (
          all_succeed uv_timer_init,
          all_succeed (uv_timer_start (record { first_ms = 0; repeat_ms = 5000 })),
          start_threads-listeners conf 0 conf.threads,
        )
        refl,
    refl,
    length-listeners conf 0 conf.threads,
    record { sin_addr = 0; sin_port = conf.client_port },
    init conf.threads,
    rw (make_ip4_addr-any conf.client_port) refl,
    length-replicate conf.threads no_statistics,
    listeners-AllListen conf conf.threads 0 conf.threads (omega arith),
  )
