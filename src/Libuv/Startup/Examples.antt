-- ===== src/Libuv/Startup/Examples.antt =====
-- Tests of the model of `run` in libuv/relay.cpp, and its theorem at a concrete configuration.
use urn.Prelude.{◌≡◌, refl, Bool, true, false, List, ok, fault, abort, length, Address}
use urn.Relay.Logic.{Relay}
use urn.Config.Numeric.{NumericConfig}
use urn.Libuv.Buffers.{Session}
use urn.Libuv.Startup.{
  Listener, Timer, Call, uv_udp_bind, make_ip4_addr_any_with_port, enable_reuse_port,
  start_udp_listener, thread_start, start_threads, make_relay, run,
}
use urn.Libuv.Startup.Listening.{AllListen, run-AllListen}

abbrev two_threads : NumericConfig
two_threads = record { client_port = 3478; peer_port = 3479; threads = 2 }

abbrev accepts_all : Call → Bool
accepts_all call = true

-- The ports are taken.
abbrev no_bind : Call → Bool
no_bind (uv_udp_bind socket binding) = false
no_bind call = true

ports_taken : run no_bind two_threads ≡ fault abort
unfolding run start_threads thread_start start_udp_listener make_ip4_addr_any_with_port
    enable_reuse_port
ports_taken = refl

run-AllListen_example :
    (timer : Timer) × (threads : List Listener) × (run accepts_all two_threads
      ≡ ok (timer, threads))
    × (timer ≡ record { first_ms = 0; repeat_ms = 5000 })
    × (length threads ≡ 2)
    × (address : Address) × (relay : Relay Session) × (make_relay accepts_all two_threads
        ≡ ok (address, relay))
    × (length relay.per_thread_statistics ≡ 2)
    × AllListen two_threads relay 0 threads
run-AllListen_example = run-AllListen accepts_all (λ call. refl) two_threads
