-- ===== src/Relay/Examples.antt =====
-- The theorems about urn/relay.hpp at concrete inputs, over a library like that of
-- urn/relay.test.cpp: it counts the receives that are started and lists what is sent.
use Prim.Native.String.{String}
use urn.Prelude.{ℕ, ◌+◌, ◌*◌, ◌/◌, ◌%◌, ◌<◌, ◌≡◌, refl, List, [], ◌∷◌, ◌++◌, some, arith, ok}
use urn.Relay.Packet.{Packet, write_le, get_session_id, sizeof_session_id}
use urn.Relay.Packet.Laws.{get_session_id-write_le}
use urn.Relay.Statistics.{
  Doubles, Statistics, no_statistics, get_and_reset_into, sum_into, load_statistics, share,
  size_mod, update_io_statistics,
}
use urn.Relay.Statistics.Laws.{Totals, load_statistics-Totals, sum_of, in_packets, in_bytes}
use urn.Relay.Statistics.Distribution.{join, percent, load_statistics-join}
use urn.Relay.Rate.{bits_per_sec, first_unit, later_units}
use urn.Relay.Rate.Laws.{Scaled, bits_per_sec-Scaled}
use urn.Relay.Sessions.{find, try_emplace}
use urn.Relay.Logic.{
  find_session, Tls, State, Library, init, count_in, on_client_received, on_peer_received,
}
use urn.Relay.Logic.Counters.{IsStarted, counted}
use urn.Relay.Logic.Registration.{Registered, on_client_received-Registered}
use urn.Relay.Logic.Forwarding.{addressee, deliver, on_peer_received-deliver}
use urn.Relay.Logic.History.{Event, client_received, SendLaws, AllProper, handle, run}
use urn.Relay.Logic.History.Table.{first_asked, asked, run-first_asked}
use urn.Relay.Logic.History.Received.{received_packets, received_bytes, run-load_statistics}
use urn.Relay.Logic.History.Forwards.{datagram, started, run-deliver}

record World : Type 0 where
  client_receives : ℕ
  peer_receives : ℕ
  sent : List (ℕ × Packet)

abbrev idle : World
idle = record { client_receives = 0; peer_receives = 0; sent = [] }

abbrev test_lib : Library ℕ ℕ World
test_lib = record {
  make_session = λ src. src;
  client_start_receive = λ w. record w { client_receives = w.client_receives + 1 };
  peer_start_receive = λ w. record w { peer_receives = w.peer_receives + 1 };
  start_send = λ tls session p st.
      ok (record st { world = record (st.world) { sent = (session, p) ∷ st.world.sent } });
}

test_lib-SendLaws : SendLaws test_lib
test_lib-SendLaws = record {
  keeps_sessions = λ tls x p st st' h. ground arith;
  keeps_received = λ tls x p st st' h. ground arith;
}

-- Doubles are numbers, printed in unary.
abbrev doubles : Doubles
doubles = record {
  Double = ℕ;
  of_size = λ n. n;
  times = λ a b. a * b;
  over = λ a b. a / b;
  hundred = 100;
  zero_point = 0;
  print_fixed = λ n. n ∷ [];
}

abbrev thread_0 : Tls
thread_0 = some 0

thread_0-IsStarted : (n : ℕ) → 0 < n → IsStarted 0 n thread_0
thread_0-IsStarted n h = record { is_set = refl; in_range = h }

-- The registration of identifier `id`.
abbrev registration : ℕ → Packet
registration id = record { address = 0; content = write_le 8 id; length = 8 }

abbrev events : List (Event ℕ)
events =
    client_received thread_0 11 (registration 1)
    ∷ client_received thread_0 22 (registration 1)
    ∷ client_received thread_0 22 (registration 2)
    ∷ []

abbrev start : State ℕ World
start = started 2 idle

abbrev after : State ℕ World
after = record {
  relay = record {
    sessions = (2, 22) ∷ (1, 11) ∷ [];
    per_thread_statistics =
        record {
          ingress = record { packets = 3; bytes = 24 };
          egress = record { packets = 0; bytes = 0 };
        }
        ∷ no_statistics
        ∷ [];
  };
  world = record { client_receives = 3; peer_receives = 2; sent = [] };
}

events-run : run test_lib doubles events start ≡ ok after
unfolding run handle on_client_received try_emplace init write_le get_session_id
    update_io_statistics
events-run = refl

abbrev two : Statistics
two = record {
  ingress = record { packets = 2; bytes = 300 };
  egress = record { packets = 1; bytes = 100 };
}

abbrev one : Statistics
one = record {
  ingress = record { packets = 1; bytes = 100 };
  egress = record { packets = 0; bytes = 0 };
}

load_statistics-Totals_example :
    Totals no_statistics (two ∷ one ∷ []) (load_statistics doubles (two ∷ one ∷ [])).2
    × ((load_statistics doubles (two ∷ one ∷ [])).0 ≡ no_statistics ∷ no_statistics ∷ [])
load_statistics-Totals_example = load_statistics-Totals doubles (two ∷ one ∷ [])

load_statistics-join_example :
    (load_statistics doubles (two ∷ one ∷ [])).1 ≡ 75 ∷ b'%' ∷ b'/' ∷ 25 ∷ b'%' ∷ []
unfolding load_statistics percent join share get_and_reset_into sum_into
load_statistics-join_example = load_statistics-join doubles (two ∷ one ∷ [])

bits_per_sec-Scaled_example :
    (v : ℕ) × (unit : String) × (bits_per_sec 5_000_000 5 ≡ ok (v, unit))
    × Scaled (((8 * 5_000_000) % size_mod) / 5) (first_unit ∷ later_units) v unit
bits_per_sec-Scaled_example = bits_per_sec-Scaled 5_000_000 5 (omega arith)

get_session_id-write_le_example :
    get_session_id (write_le sizeof_session_id 0x0102_0304_0506_0708 ++ 9 ∷ [])
    ≡ ok 0x0102_0304_0506_0708
get_session_id-write_le_example =
    get_session_id-write_le 0x0102_0304_0506_0708 (9 ∷ []) (omega arith)

on_client_received-Registered_example :
    (st' : State ℕ World) × (on_client_received test_lib thread_0 33 (registration 1) after
      ≡ ok st')
    × Registered test_lib 0 33 (registration 1) after st'
unfolding write_le
on_client_received-Registered_example =
    on_client_received-Registered test_lib 0 33 (registration 1) after
      (thread_0-IsStarted 2 (omega arith)) (omega arith)

on_peer_received-deliver_example :
    on_peer_received test_lib thread_0 99 (datagram 0 2 (7 ∷ [])) after
    ≡ deliver test_lib
        (λ x. test_lib.start_send thread_0 x (datagram 0 2 (7 ∷ [])))
        (addressee (datagram 0 2 (7 ∷ [])) after)
        (counted 0 (count_in (datagram 0 2 (7 ∷ []))) after)
unfolding write_le
on_peer_received-deliver_example =
    on_peer_received-deliver test_lib 0 99 (datagram 0 2 (7 ∷ [])) after
      (thread_0-IsStarted 2 (omega arith)) (omega arith)

events-AllProper : AllProper 2 events
unfolding write_le
events-AllProper =
    let on =
      (let t : (i : ℕ) × IsStarted i 2 thread_0 = (0, thread_0-IsStarted 2 (omega arith)) in t) in
    ((on, omega arith), ((on, omega arith), ((on, omega arith), tt)))

run-first_asked_example : find_session 1 after ≡ some 11
unfolding first_asked asked write_le get_session_id find_session find init
run-first_asked_example =
    run-first_asked test_lib doubles test_lib-SendLaws events start after events-AllProper
      events-run 1

run-load_statistics_example :
    let total = (load_statistics doubles after.relay.per_thread_statistics).2 in
    (in_packets total ≡ 3) × (in_bytes total ≡ 24)
unfolding received_packets received_bytes sum_of init
run-load_statistics_example =
    run-load_statistics test_lib doubles test_lib-SendLaws events start after
      ((λ n e. cc), ((λ n e. cc), ((λ n e. cc), tt))) events-AllProper events-run

run-deliver_example :
    on_peer_received test_lib thread_0 99 (datagram 0 2 (7 ∷ [])) after
    ≡ deliver test_lib
        (λ x. test_lib.start_send thread_0 x (datagram 0 2 (7 ∷ [])))
        (first_asked test_lib doubles events 2)
        (counted 0 (count_in (datagram 0 2 (7 ∷ []))) after)
run-deliver_example =
    run-deliver test_lib doubles test_lib-SendLaws 2 idle events after thread_0 0 99 0 2 (7 ∷ [])
      events-AllProper events-run (thread_0-IsStarted 2 (omega arith)) (omega arith)
