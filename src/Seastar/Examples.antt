-- ===== src/Seastar/Examples.antt =====
-- Tests of the model of seastar/main.cpp, and its theorems at concrete inputs.
use urn.Prelude.{
  ℕ, ◌≡◌, ◌++◌, refl, Bool, true, List, [], ◌∷◌, some, Address, Datagram, arith, ok, length,
  get_elem?,
}
use urn.Relay.Packet.{write_le, get_session_id, read_le}
use urn.Relay.Sessions.{find}
use urn.Relay.Logic.{Tls, Relay, init, on_thread_start}
use urn.Relay.Logic.Counters.{IsStarted, threads}
use urn.Relay.Logic.Routing.{named, table_of}
use urn.Seastar.{Session, UdpDatagram, receiving, St}
use urn.Seastar.Channel.{forwarded, on_peer_datagram-Forwards}
use urn.Seastar.Order.{Reach, start, peer_step, other_shards, InOrder}
use urn.Seastar.Startup.{RelayWorker, closed, main, stop}
use urn.Seastar.Startup.Serving.{listening, main-InOrder}

abbrev alice : Address
alice = record { sin_addr = 1; sin_port = 3478 }

abbrev bob : Address
bob = record { sin_addr = 2; sin_port = 3479 }

-- A datagram in two fragments.
abbrev to_alice : UdpDatagram
to_alice = record { src = bob; base = 4096; first = write_le 8 7; others = (5 ∷ []) ∷ [] }

abbrev delivered : Datagram
delivered = record { address = alice; bytes = write_le 8 7 ++ (5 ∷ []) }

-- What a registration on another shard makes of the relay.
abbrev relay_of_alice : Relay Session
relay_of_alice = record (init {Session = Session} 2) {
  sessions = (7, record { client_endpoint = alice }) ∷ [];
}

abbrev begun : St
begun = record { relay = relay_of_alice; world = record { peer_loop = receiving; channel = [] } }

forwarded_whole : forwarded (table_of begun) to_alice ≡ delivered ∷ []
unfolding named write_le get_session_id read_le find init
forwarded_whole = refl

begun-IsStarted : IsStarted 1 (threads begun) (some 1)
unfolding init
begun-IsStarted = record { is_set = refl; in_range = omega arith }

begun-Reach : Reach 2 1 (some 1) 0 [] begun
unfolding on_thread_start init
begun-Reach =
    other_shards 0 [] relay_of_alice
      (record { relay = init 2; world = record { peer_loop = receiving; channel = [] } })
      (start refl) refl refl

one_peer_step : (st' : St) × Reach 2 1 (some 1) 0 ([] ++ forwarded (table_of begun) to_alice) st'
one_peer_step =
    let (st', run, f) = on_peer_datagram-Forwards 1 to_alice begun begun-IsStarted refl in
    (st', peer_step 0 [] to_alice begun st' begun-Reach refl run)

abbrev all_open : ℕ → ℕ → Bool
all_open shard port = true

stopped : stop listening ≡ record { client_chan = closed; peer_chan = closed }
unfolding stop
stopped = refl

main-InOrder_example :
    (workers : List (RelayWorker × Tls)) × (main all_open 2 ≡ ok (init 2, workers))
    × (length workers ≡ 2)
    × (get_elem? workers 1 ≡ some (listening, some 1))
    × InOrder 1 (some 1) 0 ([] ++ forwarded (table_of begun) to_alice) (one_peer_step.0)
main-InOrder_example =
    main-InOrder all_open 2 1 0 ([] ++ forwarded (table_of begun) to_alice) (one_peer_step.0)
      (λ shard port. refl) (omega arith) (omega arith) (one_peer_step.1)
