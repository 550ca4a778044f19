-- ===== src/Uring/Worker/Rearm.antt =====
-- The release of a completed receive and the receive that follows it.
use urn.Prelude.{
  ℕ, suc, ◌+◌, ◌<◌, ◌≡◌, ◌∙◌, inl, refl, ap, true, List, ◌∷◌, arith, ltb, false, ◌==◌,
  if◌then◌else◌, length, ok, update,
}
use urn.Uring.Context.{
  Context, RingEvent, RingEventType, timer, peer_tx, Sqe, Opcode, recvmsg, poll_timeout,
}
use urn.Uring.Events.{release_event, add_recvmsg, add_timeout, queue_entries, create_timeout}
use urn.Uring.Events.Owned.{same_kind, Owned, IsFor, AllFor, AllFor-frame}
use urn.Uring.Events.Pool.{
  kinds, alloc_event-Allocated, ring-Owned, release_event-Owned, write_event-Owned, held-not-ring,
}
use urn.Uring.Events.Sends.{sends, sends_in, sends_in-skip, sends_in-frame}
use urn.Uring.Worker.{rearm}

-- The ring has got back an entry of a kind, the pool is as large as before.
pub record Rearmed (kind : RingEventType) (op : Opcode) (socket_id : ℕ) (io : Context)
    (held : List ℕ) (io' : Context) : Type 0 where
  pub owned : Owned io' held
  pub counts : (k : RingEventType) → kinds k io' ≡ (if same_kind k kind then 1 else 0) + kinds k io
  pub queued : (io'.unsubmitted ≡ suc io.unsubmitted) × (length io'.ring ≡ suc (length io.ring))
  pub same_worker :
      (io'.thread_index ≡ io.thread_index)
      × (io'.client_socket ≡ io.client_socket)
      × (io'.peer_socket ≡ io.peer_socket)
  pub same_pool : length io'.free_event_ids ≡ length io.free_event_ids
  pub same_sends : same_kind peer_tx kind ≡ false → sends io' ≡ sends io
  pub on_files :
      IsFor kind op socket_id → AllFor io.io_events io.ring → AllFor io'.io_events io'.ring

module _ {io : Context} {ev : ℕ} {held : List ℕ} (o : Owned io (ev ∷ held)) where
  -- The event that completed is the one that the next receive gets, so the pool cannot run out here.
  pub rearm-Rearmed :
      (kind : RingEventType) (socket_id : ℕ)
      → (io.io_events ev).index ≡ ev
      → io.unsubmitted < queue_entries
      → (io' : Context) × (rearm ev kind socket_id io ≡ ok io')
        × Rearmed kind recvmsg socket_id io held io'
  unfolding rearm add_recvmsg release_event
  rearm-Rearmed kind socket_id own room =
      let o₁ = release_event-Owned io ev held o own in
      let (io₂, run, a) =
        alloc_event-Allocated o₁ kind ev io.free_event_ids (ap (λ n. n ∷ io.free_event_ids) own) in
      let queue : ltb io₂.unsubmitted queue_entries ≡ true = ground (arith, a.same_ring) in
      let q : Sqe = record { op = recvmsg; socket_id = socket_id; event = ev; fixed_file = true } in
      (
        record io₂ { ring = q ∷ io₂.ring; unsubmitted = suc io₂.unsubmitted },
        rw (run, rearm, queue) refl,
        record {
          owned = ring-Owned io₂ q held a.owned a.fresh;
          counts =
              λ k. rw a.typed (ap (λ n. (if same_kind k kind then 1 else 0) + n) (a.same_kinds k));
          queued = (ground (arith, a.same_ring), ap suc (ap (length {A = Sqe}) a.same_ring.0));
          same_worker = a.same_worker;
          same_pool = omega (arith, a.one_less);
          same_sends = λ other.
              sends_in-skip io₂.io_events io₂.messages_buffer q io₂.ring (rw a.typed other)
              ∙ ap (sends_in io₂.io_events io₂.messages_buffer) a.same_ring.0
              ∙ sends_in-frame ev io.io_events io₂.io_events io.messages_buffer io₂.messages_buffer
                  io.ring (held-not-ring o) o.armed a.others
                  (λ base ne. ap (λ m. m base) a.same_memory);
          on_files = λ here there. (
            rw a.typed here,
            rw a.same_ring.0 (
                AllFor-frame ev io.io_events io₂.io_events io.ring (held-not-ring o) a.others
                  there),
          );
        },
      )

  -- The timer's event goes back into the ring without a visit to the pool.
  pub add_timeout-Rearmed :
      (milliseconds : ℕ)
      → (io.io_events ev).index ≡ ev
      → (io.io_events ev).kind ≡ timer
      → io.unsubmitted < queue_entries
      → (io' : Context) × (add_timeout ev milliseconds io ≡ ok io')
        × Rearmed timer poll_timeout 0 io held io'
  unfolding add_timeout
  add_timeout-Rearmed milliseconds own typed room =
      let queue : ltb io.unsubmitted queue_entries ≡ true = ground arith in
      let self : (ev == ev) ≡ true = ground arith in
      let event : RingEvent = record (io.io_events ev) { body = create_timeout milliseconds } in
      let (o₁, same) = write_event-Owned ev held event io.messages_buffer o in
      let next = record io { io_events = update io.io_events ev event } in
      let q : Sqe = record { op = poll_timeout; socket_id = 0; event = ev; fixed_file = false } in
      (
        record next { ring = q ∷ next.ring; unsubmitted = suc next.unsubmitted },
        rw queue refl,
        record {
          owned = ring-Owned next q held o₁ (rw self (own, inl (rw typed refl)));
          counts =
              λ k. rw (self, typed) (ap (λ n. (if same_kind k timer then 1 else 0) + n) (same k));
          queued = (refl, refl);
          same_worker = (refl, refl, refl);
          same_pool = refl;
          same_sends = λ other.
              sends_in-skip next.io_events next.messages_buffer q next.ring (rw (self, typed) other)
              ∙ sends_in-frame ev io.io_events next.io_events io.messages_buffer io.messages_buffer
                  io.ring (held-not-ring o) o.armed (λ a ne. ground arith) (λ base ne. refl);
          on_files = λ here there. (
            rw (self, typed) here,
            AllFor-frame ev io.io_events next.io_events io.ring (held-not-ring o)
                (λ a ne. ground arith) there,
          );
        },
      )
