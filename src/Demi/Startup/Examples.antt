-- ===== src/Demi/Startup/Examples.antt =====
-- The theorem about `run` in demi/relay.cpp at a concrete command line.
use urn.Prelude.{◌≡◌, refl, true, [], some, ok, length}
use urn.Config.Argv.{config, read_args, demi_config, defaults}
use urn.Sockets.{local_client_address, local_peer_address}
use urn.Relay.Logic.{init}
use urn.Relay.Logic.Counters.{IsStarted}
use urn.Demi.Worker.{Session, io_worker_init}
use urn.Demi.Startup.{Calls, run}
use urn.Demi.Startup.Ready.{demi_config-begin}

-- Descriptors 3 for the clients and 4 for the peers.
abbrev calls : Calls
calls = record {
  getaddrinfo = λ address. true;
  dmtr_socket =
      λ address. some (elim address [ local_client_address ↦ 3 | local_peer_address ↦ 4 ]);
  dmtr_bind = λ fd address. true;
}

no_arguments : demi_config (λ text. 0) [] ≡ ok (defaults 1)
unfolding config read_args
no_arguments = refl

demi_config-begin_example :
    (run calls (init 1)
      ≡ ok (some 0, record { peer_socket = 4; client_socket = 3; io = io_worker_init 0 }))
    × IsStarted 0 (length (init {Session = Session} 1).per_thread_statistics) (some 0)
demi_config-begin_example =
    demi_config-begin (λ text. 0) calls [] (defaults 1) 3 4 (λ address. refl) refl refl refl refl
      no_arguments
