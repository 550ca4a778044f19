-- ===== src/Uring/Examples.antt =====
-- The theorems about uring/relay.cpp at concrete inputs: a main worker that has just started.
use urn.Prelude.{
  Datagram, ℕ, ◌≤◌, ◌⊎◌, abort, ◌+◌, ◌-◌, ◌*◌, ◌/◌, ◌%◌, ◌^◌, ◌≡◌, refl, true, false, [], ◌∷◌, ◌++◌,
  some, arith, length, get_elem?, Outcome, ok, fault,
}
use urn.Relay.Packet.{Packet, write_le, get_session_id, read_le}
use urn.Relay.Sessions.{find}
use urn.Relay.Logic.Routing.{named}
use urn.Uring.Worker.Flow.{Flow, begins, accepts, handles, Carries, Flow-Carries}
use urn.Relay.Statistics.{Doubles, Statistics, no_statistics, size_mod}
use urn.Relay.Logic.{Relay, on_peer_received}
use urn.Relay.Logic.Counters.{IsStarted}
use urn.Uring.Context.{
  Context, Session, peer_tx, Sqe, recvmsg, poll_timeout, is_main_worker, listen_context_initialize,
}
use urn.Uring.Events.{release_event, alloc_event, add_recvmsg, add_sendmsg, add_timeout}
use urn.Uring.Events.Pool.{kinds}
use urn.Uring.Events.Owned.{Owned}
use urn.Uring.Worker.{
  check_res, packet_at, rearm, copy_out, address_tx, submit, St, failed, on_cqe, on_peer_tx,
  start_send, start_receives,
}
use urn.Uring.Worker.Sending.{Sent, start_send-Sent}
use urn.Uring.Worker.Laws.{on_peer_tx-failed}
use urn.Uring.Worker.Invariant.{WorkerInv, Completion, received, res_of, completed}
use urn.Uring.Worker.Loop.{Pass, for_each_cqe, worker_loop}
use urn.Uring.Worker.Exit.{Fills, Served, AbortsIn, no_log, log_passes, worker_loop-leaves}
use urn.Uring.Worker.System.{Reach, here, next, submits, worker-WorkerInv, max_sends}

abbrev doubles : Doubles
doubles = record {
  Double = ℕ;
  of_size = λ n. n;
  times = λ a b. a * b;
  over = λ a b. a / b;
  hundred = 100;
  zero_point = 0;
  print_fixed = λ n. n ∷ [];
}

abbrev one_thread : Relay Session
one_thread = record { sessions = []; per_thread_statistics = no_statistics ∷ [] }

thread_0-IsStarted : IsStarted 0 1 (some 0)
thread_0-IsStarted = record { is_set = refl; in_range = omega arith }

abbrev or_else : Outcome Context → Context → Context
or_else (ok io) default = io
or_else (fault e) default = default

main : Context
main = or_else (start_receives (listen_context_initialize 0)) (listen_context_initialize 0)

main-runs : start_receives (listen_context_initialize 0) ≡ ok main
unfolding main start_receives listen_context_initialize alloc_event add_recvmsg add_timeout
    is_main_worker
main-runs = refl

-- The main worker when the kernel has accepted its first entries.
main_state : St
main_state = record { relay = one_thread; world = submit main }

main_state-Reach : Reach doubles (some 0) (record { relay = one_thread; world = main }) main_state
unfolding main_state
main_state-Reach = next here (submits refl)

main_state-WorkerInv : WorkerInv (some 0) 0 main_state
main_state-WorkerInv =
    (worker-WorkerInv doubles (some 0) 0 0 one_thread main main_state thread_0-IsStarted main-runs
      main_state-Reach).0

abbrev entry : ℕ → ℕ → Sqe
entry ev socket_id = record { op = recvmsg; socket_id = socket_id; event = ev; fixed_file = true }

abbrev timer_entry : Sqe
timer_entry = record { op = poll_timeout; socket_id = 0; event = 13; fixed_file = false }

abbrev from_peer : Completion
from_peer = received (1 ∷ 2 ∷ 3 ∷ []) (record { sin_addr = 5; sin_port = 6 })

abbrev client_7 : Session
client_7 = record {
  client_endpoint = record { address = record { sin_addr = 7; sin_port = 8 }; user_data = 0 };
}

abbrev three_bytes : Packet
three_bytes = record { address = 0; content = 1 ∷ 2 ∷ 3 ∷ []; length = 3 }

main_state-Owned : Owned main_state.world []
main_state-Owned = main_state-WorkerInv.settled.owned

start_send-Sent_example :
    (io' : Context) × (start_send client_7 three_bytes main_state.world ≡ ok io')
    × Sent client_7 three_bytes main_state.world [] 12 io'
unfolding main_state main start_receives listen_context_initialize alloc_event add_recvmsg
    add_timeout is_main_worker submit
start_send-Sent_example =
    start_send-Sent (main_state-Owned) client_7 three_bytes 12
      (11 ∷ 10 ∷ 9 ∷ 8 ∷ 7 ∷ 6 ∷ 5 ∷ 4 ∷ 3 ∷ 2 ∷ 1 ∷ 0 ∷ []) refl (omega arith) (omega arith)
      (omega arith)

on_peer_tx-failed_example :
    (st' : St) × (s' : Statistics) × (on_peer_tx doubles (some 0) 12 (failed 1) main_state ≡ ok st')
    × (get_elem? st'.relay.per_thread_statistics 0 ≡ some s')
    × (s'.egress.packets ≡ (0 + 1) % size_mod)
    × (s'.egress.bytes ≡ (0 + (2 ^ 32 - 1)) % size_mod)
unfolding main_state
on_peer_tx-failed_example =
    on_peer_tx-failed doubles (some 0) 0 12 1 main_state no_statistics thread_0-IsStarted refl
      (omega arith) (omega arith)

-- A main worker whose relay knows the session 7, and a peer's datagram for it.
abbrev known_session : Relay Session
known_session = record { sessions = (7, client_7) ∷ []; per_thread_statistics = no_statistics ∷ [] }

abbrev accepted : St
accepted = record { relay = known_session; world = submit main }

abbrev for_session : Completion
for_session = received (write_le 8 7 ++ (9 ∷ [])) (record { sin_addr = 5; sin_port = 6 })

abbrev or_same : Outcome St → St → St
or_same (ok st) default = st
or_same (fault e) default = default

forwarded : St
forwarded =
    or_same
      (on_cqe doubles (some 0) 14 (res_of for_session)
        (completed (timer_entry ∷ []) (entry 14 0) (entry 15 1 ∷ []) for_session accepted))
      accepted

forwarded-runs :
    on_cqe doubles
      (some 0)
      14
      (res_of for_session)
      (completed (timer_entry ∷ []) (entry 14 0) (entry 15 1 ∷ []) for_session accepted)
    ≡ ok forwarded
unfolding forwarded main start_receives listen_context_initialize alloc_event add_recvmsg
    add_timeout is_main_worker submit on_cqe check_res on_peer_received packet_at write_le
    get_session_id find start_send copy_out add_sendmsg address_tx rearm release_event
forwarded-runs = refl

abbrev onward_datagram : Datagram
onward_datagram = record {
  address = record { sin_addr = 7; sin_port = 8 };
  bytes = write_le 8 7 ++ (9 ∷ []);
}

forwarded-Flow :
    Flow doubles
      (some 0)
      (record { relay = known_session; world = main })
      (onward_datagram ∷ [])
      []
      forwarded
unfolding main start_receives listen_context_initialize alloc_event add_recvmsg add_timeout
    is_main_worker submit named write_le get_session_id find read_le
forwarded-Flow =
    handles (timer_entry ∷ []) (entry 14 0) (entry 15 1 ∷ []) for_session (accepts begins) refl
      (omega arith) (omega arith) forwarded-runs

Flow-Carries_example : Carries (some 0) 0 (onward_datagram ∷ []) [] forwarded
Flow-Carries_example =
    Flow-Carries doubles (some 0) 0 0 known_session main (onward_datagram ∷ []) [] forwarded
      thread_0-IsStarted main-runs forwarded-Flow

-- A pass that takes the datagram above, and one in which SIGINT is seen.
abbrev first_pass : Pass
first_pass = record {
  other_threads = λ relay. relay;
  cqes =
      record {
        before = timer_entry ∷ [];
        sqe = entry 14 0;
        after = entry 15 1 ∷ [];
        completion = for_session;
      }
      ∷ [];
  has_sigint = false;
}

abbrev last_pass : Pass
last_pass = record { other_threads = λ relay. relay; cqes = []; has_sigint = true }

first_pass-Fills : Fills doubles (some 0) first_pass.cqes accepted
unfolding main start_receives listen_context_initialize alloc_event add_recvmsg add_timeout
    is_main_worker submit write_le
first_pass-Fills =
    (record { in_ring = refl; accepted = omega arith; fits = omega arith }, rw forwarded-runs tt)

first_pass-runs : for_each_cqe doubles (some 0) first_pass.cqes accepted ≡ ok forwarded
unfolding for_each_cqe
first_pass-runs = rw forwarded-runs refl

begun : St
begun = record { relay = known_session; world = main }

passes-Served : Served doubles (some 0) (first_pass ∷ last_pass ∷ []) begun
unfolding begun for_each_cqe
passes-Served = (refl, first_pass-Fills, rw first_pass-runs (refl, tt, tt))

worker_loop-leaves_example :
    let passes = first_pass ∷ last_pass ∷ first_pass ∷ [] in
    let call = worker_loop doubles (some 0) passes begun in
    let log = log_passes doubles (some 0) (first_pass ∷ last_pass ∷ []) begun no_log in
    ((st : St) × (call ≡ ok (true, st))
      × Carries (some 0) 0 log.onwards log.completes st
      × (kinds peer_tx st.world ≤ max_sends st.world.thread_index))
    ⊎ ((call ≡ fault abort) × AbortsIn doubles (some 0) passes begun)
unfolding begun
worker_loop-leaves_example =
    worker_loop-leaves doubles (some 0) 0 0 known_session main (first_pass ∷ []) last_pass
      (first_pass ∷ []) thread_0-IsStarted main-runs (refl, tt) refl passes-Served
