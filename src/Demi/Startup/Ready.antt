-- ===== src/Demi/Startup/Ready.antt =====
-- demi/relay.cpp: the worker that `run` starts.
use urn.Prelude.{ℕ, ◌≡◌, refl, true, List, some, ok, arith, ltb, length, length-replicate}
use Prim.Native.String.{String}
use urn.Sockets.{Address, local_client_address, local_peer_address}
use urn.Config.Argv.{Config, demi_config}
use urn.Config.Accepted.{config-bounds}
use urn.Relay.Statistics.{no_statistics}
use urn.Relay.Logic.{init, on_thread_start}
use urn.Relay.Logic.Counters.{IsStarted}
use urn.Demi.Worker.{Session, io_worker_init}
use urn.Demi.Startup.{Calls, bindable_address, create_udp_socket, open_worker, begin_worker, run}

-- From every command line on which the constructor of `config` returns, where the resolver and Demikernel
-- give an address and a bound descriptor for each side: `run` brings its one worker up to its loop with
-- these two descriptors, the peers' and the clients', and with the statistics of index 0, which exist for
-- every accepted number of threads; the worker's state is the one that the theorem on its turns starts from.
pub demi_config-begin :
    (atoi : String → ℕ) (calls : Calls) (line : List String) (c : Config) (client peer : ℕ)
    → ((address : Address) → calls.getaddrinfo address ≡ true)
    → calls.dmtr_socket local_client_address ≡ some client
    → calls.dmtr_socket local_peer_address ≡ some peer
    → calls.dmtr_bind client local_client_address ≡ true
    → calls.dmtr_bind peer local_peer_address ≡ true
    → demi_config atoi line ≡ ok c
    → (run calls (init c.threads)
        ≡ ok (some 0, record { peer_socket = peer; client_socket = client; io = io_worker_init 0 }))
      × IsStarted 0 (length (init {Session = Session} c.threads).per_thread_statistics) (some 0)
unfolding run begin_worker open_worker create_udp_socket bindable_address on_thread_start init
demi_config-begin atoi calls line c client peer resolved cs ps cb pb parsed =
    let (some_threads, few) = config-bounds atoi 1 line c (omega arith) parsed in
    let many = length-replicate c.threads no_statistics in
    let known : ltb 0 (length (init {Session = Session} c.threads).per_thread_statistics) ≡ true =
      ground (arith, many) in
    (
      rw (resolved local_client_address, resolved local_peer_address, cs, ps, cb, pb, known) refl,
      record { is_set = refl; in_range = omega (arith, many) },
    )
