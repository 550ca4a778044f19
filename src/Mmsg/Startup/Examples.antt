-- ===== src/Mmsg/Startup/Examples.antt =====
-- Tests of the model of `run` in mmsg/relay.cpp, and its theorems at concrete inputs.
use Prim.Native.String.{String}
use text.Mathlib.Text.{◌==◌ as str_eq}
use urn.Prelude.{
  ◌*◌, ◌/◌, ◌++◌, ◌>>=◌, Address, no_address, Datagram, ℕ, ◌≡◌, refl, Bool, true, false, List, [],
  ◌∷◌, some, ok, fault, abort, length, arith, if◌then◌else◌,
}
use urn.Relay.Logic.{init}
use urn.Relay.Packet.{write_le}
use urn.Relay.Statistics.{Doubles}
use urn.Mmsg.Sending.{sent_messages}
use urn.Mmsg.Worker.Turns.{Input}
use urn.Config.Argv.{Config, config, read_args, print_config, flag_of, mmsg_config}
use urn.Sockets.{Socket, edit}
use urn.Mmsg.Startup.{Call, socket, Start, create_udp_socket, create_loop, run}
use urn.Mmsg.Startup.Ready.{all_starts, run-ready, AllBegin, AllWaitFor, mmsg_config-begin}

abbrev accepts_all : List Socket → Call → Bool
accepts_all sockets call = true

-- An operating system that has no second socket to give.
abbrev one_socket : List Socket → Call → Bool
one_socket (s ∷ rest) (socket address) = false
one_socket sockets call = true

no_second_socket : run one_socket 1 ≡ fault abort
unfolding run create_loop create_udp_socket edit
no_second_socket = refl

run-ready_example : run accepts_all 2 ≡ ok (all_starts 2 1 1)
run-ready_example = run-ready accepts_all 2 (λ sockets call. refl) (omega arith)

abbrev atoi : String → ℕ
atoi text = if str_eq text "2" then 2 else 0

abbrev line : List String
line = "--threads" ∷ "2" ∷ []

abbrev two_threads : Config
two_threads = record { client_port = some "3478"; peer_port = some "3479"; threads = 2 }

line-config : mmsg_config atoi 8 line ≡ ok two_threads
unfolding config read_args print_config flag_of
line-config = refl

mmsg_config-begin_example :
    (workers : List Start) × (run accepts_all 2 ≡ ok workers)
    × AllBegin accepts_all (init 2) workers
    × AllWaitFor (length workers) workers
    × (length workers ≡ 2)
mmsg_config-begin_example =
    mmsg_config-begin atoi accepts_all 8 line two_threads (λ sockets call. refl) line-config

abbrev alice : Address
alice = record { sin_addr = 1; sin_port = 3478 }

-- Alice registers the identifier 7, and a datagram names it.
abbrev registrations : List Datagram
registrations = record { address = alice; bytes = write_le 8 7 } ∷ []

abbrev datagrams : List Datagram
datagrams = record { address = no_address; bytes = write_le 8 7 ++ (5 ∷ []) } ∷ []

abbrev inputs : List Input
inputs =
    record {
      clients = registrations;
      peers = datagrams;
      expired = true;
      answers = sent_messages 1 ∷ [];
    }
    ∷ []

abbrev doubles : Doubles
doubles = record {
  Double = ℕ;
  of_size = λ n. n;
  times = λ a b. a * b;
  over = λ a b. a / b;
  hundred = 100;
  zero_point = 0;
  print_fixed = λ n. n ∷ [];
}
