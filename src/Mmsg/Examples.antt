-- ===== src/Mmsg/Examples.antt =====
-- Tests of the model of mmsg/relay.cpp, and its theorems at concrete inputs.
use urn.Relay.Logic.Routing.{named}
use urn.Prelude.{ℕ, ◌*◌, ◌/◌, ◌≡◌, refl, List, [], ◌∷◌, ◌++◌, true, ok, Address, arith, Datagram}
use urn.Relay.Packet.{write_le, get_session_id, read_le}
use urn.Relay.Sessions.{find}
use urn.Relay.Logic.{init}
use urn.Relay.Statistics.{Doubles}
use urn.Mmsg.Vectors.{IoWorker, io_worker_init}
use urn.Mmsg.Sending.{
  Answer, sent_messages, send_error, transmit, send_loop, io_run_client_send_frame,
}
use urn.Mmsg.Sending.Laws.{
  Progress, io_run_client_send_frame-Progress, io_run_client_send_frame-all,
}
use urn.Mmsg.Worker.{St}
use urn.Mmsg.Worker.Registrations.{first_client}
use urn.Mmsg.Worker.Forwards.{forwards}
use urn.Mmsg.Worker.Turns.{Input}
use urn.Mmsg.Worker.Turn.{table_after}

abbrev alice : Address
alice = record { sin_addr = 1; sin_port = 3478 }

abbrev bob : Address
bob = record { sin_addr = 2; sin_port = 3479 }

abbrev doubles : Doubles
doubles = record {
  Double = ℕ;
  of_size = λ n. n;
  times = λ a b. a * b;
  over = λ a b. a / b;
  hundred = 100;
  zero_point = 0;
  print_fixed = λ n. n ∷ [];
}

-- Alice registers the identifier 7; Bob sends to it, and to an unknown identifier.
abbrev registrations : List Datagram
registrations = record { address = alice; bytes = write_le 8 7 } ∷ []

abbrev peer_datagrams : List Datagram
peer_datagrams =
    record { address = bob; bytes = write_le 8 9 }
    ∷ record { address = bob; bytes = write_le 8 7 ++ (5 ∷ []) }
    ∷ []

abbrev start : St
start = record { relay = init 1; world = io_worker_init 0 }

abbrev answers : List Answer
answers = send_error true ∷ sent_messages 0 ∷ sent_messages 1 ∷ []

abbrev delivered : Datagram
delivered = record { address = alice; bytes = write_le 8 7 ++ (5 ∷ []) }

forwarded_one : forwards (table_after registrations start) peer_datagrams ≡ delivered ∷ []
unfolding forwards write_le first_client named find get_session_id read_le init
forwarded_one = refl

-- A worker with one message queued.
abbrev loaded : IoWorker
loaded = record (io_worker_init 0) {
  clients_io = record ((io_worker_init 0).clients_io) { tx_length = 1 };
}

io_run_client_send_frame-Progress_example :
    (k : ℕ) × Progress k 1 0 loaded (record { remaining = 1; offset = 0; io = loaded })
unfolding io_run_client_send_frame send_loop
io_run_client_send_frame-Progress_example =
    io_run_client_send_frame-Progress (send_error true ∷ []) loaded
      (record { remaining = 1; offset = 0; io = loaded }) tt refl

io_run_client_send_frame-all_example :
    io_run_client_send_frame (send_error true ∷ sent_messages 1 ∷ []) loaded
    ≡ ok (record { remaining = 0; offset = 1; io = transmit 0 1 loaded })
io_run_client_send_frame-all_example =
    io_run_client_send_frame-all (send_error true ∷ sent_messages 1 ∷ []) loaded (omega arith, tt)
      (refl, tt) (omega arith)

-- Two turns: Alice registers in the first, and Bob sends to her in both.
abbrev inputs : List Input
inputs =
    record { clients = registrations; peers = peer_datagrams; expired = true; answers = answers }
    ∷ record { clients = []; peers = peer_datagrams; expired = true; answers = answers }
    ∷ []
