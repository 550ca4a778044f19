-- ===== src/Uring/Worker/Invariant.antt =====
-- The invariant of a worker between two turns of its loop, and what the kernel does to a worker.
use urn.Prelude.{
  ℕ, ◌+◌, ◌≤◌, ◌<◌, ◌≡◌, refl, Bool, true, List, [], ◌∷◌, ◌++◌, arith, ◌==◌, if◌then◌else◌, length,
  length-append, Address, update,
}
use urn.Relay.Logic.{Tls}
use urn.Relay.Logic.Counters.{IsStarted, threads}
use urn.Uring.Context.{
  Context, RingEventType, invalid, client_rx, peer_rx, peer_tx, timer, rx, Sqe, memory_per_packet,
}
use urn.Uring.Events.{iov_base, queue_entries}
use urn.Uring.Events.Owned.{same_kind, Owned, AllFor, AllFor-frame, AllFor-split}
use urn.Uring.Events.Pool.{kinds, complete, complete-Owned, write_event-Owned, held-not-ring}
use urn.Uring.Worker.{St, Res, failed, done}

abbrev pub one_if : Bool → ℕ
one_if b = if b then 1 else 0

-- The events are shared out between the pool, the ring and the code, with `missing` entries taken
-- from the ring: one receive on each socket, one timer on the main worker, else sends from the
-- clients' socket.
pub record Settled (io : Context) (held : List ℕ) (missing : RingEventType → ℕ) : Type 0 where
  pub owned : Owned io held
  pub one_client : missing client_rx + kinds client_rx io ≡ 1
  pub one_peer : missing peer_rx + kinds peer_rx io ≡ 1
  pub main_timer : missing timer + kinds timer io ≡ one_if (io.thread_index == 0)
  pub no_invalid : missing invalid + kinds invalid io ≡ 0
  pub queued : io.unsubmitted ≤ length io.ring
  pub files : (io.client_socket ≡ 1) × (io.peer_socket ≡ 0)
  pub on_files : AllFor io.io_events io.ring

abbrev pub nothing : RingEventType → ℕ
nothing _ = 0

abbrev pub one_of : RingEventType → RingEventType → ℕ
one_of kind k = if same_kind k kind then 1 else 0

pub Settled-room :
    {io : Context} {held : List ℕ} {missing : RingEventType → ℕ}
    → Settled io held missing
    → io.unsubmitted < queue_entries
Settled-room s = omega (arith, s.owned.all_there, s.queued)

-- Between two turns of the loop: the thread has its statistics and no event is held.
pub record WorkerInv (tls : Tls) (i : ℕ) (st : St) : Type 0 where
  pub started : IsStarted i (threads st) tls
  pub settled : Settled st.world [] nothing

-- How an entry of the ring completes: a datagram from an address, an error of a receive, the end of a
-- send, the end of the time.
pub data Completion : Type 0 where
  received : List ℕ → Address → Completion
  receive_failed : ℕ → Completion
  sent : Res → Completion
  expired : Completion

-- What the kernel may answer to an entry: a receive has `memory_per_packet` bytes at most.
abbrev pub Fits : RingEventType → Completion → Type 0
Fits client_rx (received bytes from) = length bytes ≤ memory_per_packet
Fits client_rx (receive_failed errno) = Unit {0}
Fits peer_rx (received bytes from) = length bytes ≤ memory_per_packet
Fits peer_rx (receive_failed errno) = Unit {0}
Fits peer_tx (sent res) = Unit {0}
Fits timer expired = Unit {0}
Fits _ _ = ⊥

abbrev pub res_of : Completion → Res
res_of (received bytes from) = done (length bytes)
res_of (receive_failed errno) = failed errno
res_of (sent res) = res
res_of expired = done 0

abbrev pub receive_into : ℕ → List ℕ → Address → Context → Context
receive_into ev bytes from io = record io {
  io_events = update io.io_events ev (record (io.io_events ev) {
    body = rx (iov_base (io.io_events ev).body) memory_per_packet from;
  });
  messages_buffer = update io.messages_buffer (iov_base (io.io_events ev).body) bytes;
}

-- What the kernel has written before it reports a completion.
abbrev pub kernel_writes : ℕ → Completion → Context → Context
kernel_writes ev (received bytes from) io = receive_into ev bytes from io
kernel_writes ev (receive_failed errno) io = io
kernel_writes ev (sent res) io = io
kernel_writes ev expired io = io

abbrev pub completed : List Sqe → Sqe → List Sqe → Completion → St → St
completed xs q ys c st = record st { world = kernel_writes q.event c (complete xs ys st.world) }

-- The worker has taken the completion of `ev`, an event of a kind, out of the ring.
pub record Taken (tls : Tls) (i : ℕ) (kind : RingEventType) (ev : ℕ) (st : St) : Type 0 where
  pub started : IsStarted i (threads st) tls
  pub settled : Settled st.world (ev ∷ []) (one_of kind)
  pub own : (st.world.io_events ev).index ≡ ev
  pub typed : (st.world.io_events ev).kind ≡ kind

module _ {tls : Tls} {i : ℕ} {st : St} (inv : WorkerInv tls i st) (xs : List Sqe) (q : Sqe)
    (ys : List Sqe) (e : st.world.ring ≡ xs ++ (q ∷ ys))
    (submitted : st.world.unsubmitted ≤ length xs) where
  complete-Taken :
      Taken tls i
        (st.world.io_events q.event).kind
        q.event
        (record st { world = complete xs ys st.world })
  complete-Taken =
      let s = inv.settled in
      let (o, h, counts) = complete-Owned st.world xs q ys e s.owned in
      record {
        started = inv.started;
        settled = record {
          owned = o;
          one_client = omega (arith, s.one_client, counts client_rx);
          one_peer = omega (arith, s.one_peer, counts peer_rx);
          main_timer = omega (arith, s.main_timer, counts timer);
          no_invalid = omega (arith, s.no_invalid, counts invalid);
          queued = omega (arith, submitted, length-append xs ys);
          files = s.files;
          on_files = AllFor-split st.world.io_events xs q ys (rw e at s.on_files);
        };
        own = h.0;
        typed = refl;
      }

receive_into-Taken :
    {tls : Tls} {i : ℕ} {kind : RingEventType} (ev : ℕ) {st : St} (bytes : List ℕ) (from : Address)
    → Taken tls i kind ev st
    → Taken tls i kind ev (record st { world = receive_into ev bytes from st.world })
receive_into-Taken {kind} ev {st} bytes from t =
    let s = t.settled in
    let io = st.world in
    let self : (ev == ev) ≡ true = ground arith in
    let (o, same) =
      write_event-Owned ev []
        (record (io.io_events ev) {
          body = rx (iov_base (io.io_events ev).body) memory_per_packet from;
        })
        (update io.messages_buffer (iov_base (io.io_events ev).body) bytes) s.owned in
    record {
      started = t.started;
      settled = record {
        owned = o;
        one_client = omega (arith, s.one_client, same client_rx);
        one_peer = omega (arith, s.one_peer, same peer_rx);
        main_timer = omega (arith, s.main_timer, same timer);
        no_invalid = omega (arith, s.no_invalid, same invalid);
        queued = s.queued;
        files = s.files;
        on_files =
            AllFor-frame ev io.io_events (receive_into ev bytes from io).io_events io.ring
              (held-not-ring s.owned) (λ a ne. ground arith) s.on_files;
      };
      own = rw self t.own;
      typed = rw self t.typed;
    }

kernel_writes-Taken :
    {tls : Tls} {i : ℕ} {kind : RingEventType} (ev : ℕ) (st : St) (c : Completion)
    → Taken tls i kind ev st
    → Taken tls i kind ev (record st { world = kernel_writes ev c st.world })
kernel_writes-Taken ev st (received bytes from) t = receive_into-Taken ev bytes from t
kernel_writes-Taken ev st (receive_failed errno) t = t
kernel_writes-Taken ev st (sent res) t = t
kernel_writes-Taken ev st expired t = t

-- A completion leaves the worker in charge of exactly the completed event.
pub completed-Taken :
    {tls : Tls} {i : ℕ} {st : St} (xs : List Sqe) (q : Sqe) (ys : List Sqe) (c : Completion)
    → WorkerInv tls i st
    → st.world.ring ≡ xs ++ (q ∷ ys)
    → st.world.unsubmitted ≤ length xs
    → Taken tls i (st.world.io_events q.event).kind q.event (completed xs q ys c st)
completed-Taken xs q ys c inv e s = kernel_writes-Taken q.event _ c (complete-Taken inv xs q ys e s)
