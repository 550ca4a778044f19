-- ===== src/Uring/Worker/Sending.antt =====
-- `uring::session::start_send`: what a send puts into the ring.
use urn.Prelude.{
  ℕ, suc, ◌+◌, ◌*◌, ◌≤◌, ◌<◌, ◌≡◌, inr, refl, ap, ◌∙◌, true, List, [], ◌∷◌, arith, ltb, leb, ◌==◌,
  if◌then◌else◌, length, take, ok, fault, abort, update,
}
use urn.Relay.Packet.{Packet}
use urn.Relay.Logic.Counters.{IsReadable}
use urn.Uring.Context.{
  Context, Session, RingEvent, RingEventType, peer_tx, rx, Sqe, sendmsg, memory_per_packet,
}
use urn.Uring.Events.{add_sendmsg, queue_entries, iov_base}
use urn.Uring.Events.Owned.{same_kind, Owned}
use urn.Uring.Events.Pool.{
  kinds, alloc_event-Allocated, alloc_event-exhausted, ring-Owned, write_event-Owned,
}
use urn.Uring.Worker.{start_send, copy_out, address_tx}

-- What a send of `packet` on `session` has done, with the event `id`.
pub record Sent (session : Session) (packet : Packet) (io : Context) (held : List ℕ) (id : ℕ)
    (io' : Context) : Type 0 where
  pub owned : Owned io' held
  pub entry :
      io'.ring
      ≡ record { op = sendmsg; socket_id = io.client_socket; event = id; fixed_file = true }
        ∷ io.ring
  pub memory :
      (base : ℕ)
      → io'.messages_buffer base ≡ (
          if id * memory_per_packet == base
          then take packet.length packet.content
          else io.messages_buffer base)
  pub events :
      (a : ℕ)
      → io'.io_events a ≡ (
          if id == a
          then record {
            kind = peer_tx;
            index = id;
            body = rx (id * memory_per_packet) packet.length session.client_endpoint.address;
          }
          else io.io_events a)
  pub counts :
      (k : RingEventType) → kinds k io' ≡ (if same_kind k peer_tx then 1 else 0) + kinds k io
  pub queued : io'.unsubmitted ≡ suc io.unsubmitted
  pub same_worker :
      (io'.thread_index ≡ io.thread_index)
      × (io'.client_socket ≡ io.client_socket)
      × (io'.peer_socket ≡ io.peer_socket)

module _ {io : Context} {held : List ℕ} (o : Owned io held) (session : Session)
    (packet : Packet) where
  -- In a well-formed pool with a free event and room in the submission queue, a packet that fits a region is sent: its
  -- bytes are copied to the region of the event released last, no other region is written, and a
  -- send of exactly these bytes to the session's client goes into the ring.
  pub start_send-Sent :
      (id : ℕ) (rest : List ℕ)
      → io.free_event_ids ≡ id ∷ rest
      → io.unsubmitted < queue_entries
      → IsReadable packet
      → packet.length ≤ memory_per_packet
      → (io' : Context) × (start_send session packet io ≡ ok io')
        × Sent session packet io held id io'
  unfolding start_send copy_out address_tx add_sendmsg
  start_send-Sent id rest e room readable fits =
      let (io₁, run, a) = alloc_event-Allocated o peer_tx id rest e in
      let short : leb packet.length memory_per_packet ≡ true = ground arith in
      let there : leb packet.length (length packet.content) ≡ true = ground arith in
      let base : iov_base (io₁.io_events id).body ≡ id * memory_per_packet =
        ground (arith, a.fresh, a.typed) in
      let queue : ltb io₁.unsubmitted queue_entries ≡ true = ground (arith, a.same_ring) in
      let self : (id == id) ≡ true = ground arith in
      let event : RingEvent = record (io₁.io_events id) {
        body = rx (id * memory_per_packet) packet.length session.client_endpoint.address;
      } in
      let memory =
        update io₁.messages_buffer (id * memory_per_packet) (take packet.length packet.content) in
      let (o₂, same) = write_event-Owned id held event memory a.owned in
      let next = record io₁ {
        io_events = update io₁.io_events id event;
        messages_buffer = memory;
      } in
      let q : Sqe = record {
        op = sendmsg;
        socket_id = io₁.client_socket;
        event = id;
        fixed_file = true;
      } in
      (
        record next { ring = q ∷ next.ring; unsubmitted = suc next.unsubmitted },
        rw (run, start_send, short, there, base, queue) refl,
        record {
          owned = ring-Owned next q held o₂ (rw self (a.fresh.0, inr refl));
          entry = ground (arith, a.same_ring, a.same_worker);
          memory = λ b. ground (arith, a.same_memory);
          events = λ b. ground (arith, a.others b, a.typed, a.fresh);
          counts = λ k.
              rw (self, a.typed)
                (ap (λ n. (if same_kind k peer_tx then 1 else 0) + n) (same k ∙ a.same_kinds k));
          queued = ground (arith, a.same_ring);
          same_worker = a.same_worker;
        },
      )

  -- Without a free event the process is aborted.
  pub start_send-exhausted : io.free_event_ids ≡ [] → start_send session packet io ≡ fault abort
  unfolding start_send
  start_send-exhausted e = rw (alloc_event-exhausted peer_tx io e)
