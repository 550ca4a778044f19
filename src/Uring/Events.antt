-- ===== src/Uring/Events.antt =====
-- uring/relay.cpp: the pool of events and the entries of the ring.
pub mod Owned
pub mod Pool
pub mod Sends
use urn.Prelude.{
  ℕ, suc, ◌+◌, ◌*◌, ◌/◌, ◌%◌, Bool, true, false, List, [], ◌∷◌, ltb, if◌then◌else◌, Outcome, ok,
  fault, ◌>>=◌, ◌>>◌, ensure, abort, out_of_bounds, Address, no_address, update,
}
use urn.Uring.Context.{
  Context, RingEvent, RingEventType, EventData, rx, timeout, Sqe, Opcode, recvmsg, sendmsg,
  poll_timeout, num_events, memory_per_packet,
}

-- The entries that `io_uring_queue_init_params` is asked for.
abbrev pub queue_entries : ℕ
queue_entries = 4096

abbrev pub address_of : EventData → Address
address_of (rx base len a) = a
address_of (timeout s ns) = no_address

abbrev pub iov_base : EventData → ℕ
iov_base (rx base len a) = base
iov_base (timeout s ns) = 0

-- `alloc_event`. The address of a fresh event is what the event held.
unfoldable pub alloc_event : RingEventType → Context → Outcome (ℕ × Context)
alloc_event kind io = elim io.free_event_ids [
  | [] ↦ fault abort
  | free_id ∷ rest ↦ do
    ensure (ltb free_id num_events) out_of_bounds
    let event : RingEvent = record {
      kind = kind;
      index = free_id;
      body =
          rx (free_id * memory_per_packet) memory_per_packet
            (address_of (io.io_events free_id).body);
    }
    ok (free_id, record io { free_event_ids = rest; io_events = update io.io_events free_id event })
]

unfoldable pub release_event : ℕ → Context → Context
release_event ev io = record io { free_event_ids = (io.io_events ev).index ∷ io.free_event_ids }

-- `io_uring_get_sqe` returns null when the submission queue is full; the callers abort then.
abbrev pub add_sqe : Sqe → Context → Outcome Context
add_sqe sqe io =
    if ltb io.unsubmitted queue_entries
    then ok (record io { ring = sqe ∷ io.ring; unsubmitted = suc io.unsubmitted })
    else fault abort

unfoldable pub add_recvmsg : ℕ → ℕ → Context → Outcome Context
add_recvmsg ev socket_id =
    add_sqe (record { op = recvmsg; socket_id = socket_id; event = ev; fixed_file = true })

unfoldable pub add_sendmsg : ℕ → ℕ → Context → Outcome Context
add_sendmsg ev socket_id =
    add_sqe (record { op = sendmsg; socket_id = socket_id; event = ev; fixed_file = true })

unfoldable pub create_timeout : ℕ → EventData
create_timeout milliseconds = timeout (milliseconds / 1000) ((milliseconds % 1000) * 1000000)

unfoldable pub add_timeout : ℕ → ℕ → Context → Outcome Context
unfolding create_timeout
add_timeout ev milliseconds io =
    let event = record (io.io_events ev) { body = create_timeout milliseconds } in
    add_sqe (record { op = poll_timeout; socket_id = 0; event = ev; fixed_file = false })
      (record io { io_events = update io.io_events ev event })
