-- ===== src/Uring/Worker/Starting.antt =====
-- The start of a worker of uring/relay.cpp: its first receives and its timer.
use urn.Prelude.{
  ℕ, zero, suc, ◌+◌, ◌<◌, ◌≡◌, refl, ap, ◌∙◌, inl, inr, true, List, [], ◌∷◌, arith, ltb, ◌==◌,
  if◌then◌else◌, length, Bool-cases, ok, count,
}
use urn.Uring.Context.{
  Context, RingEventType, invalid, client_rx, peer_rx, peer_tx, timer, Sqe, recvmsg, push_ids,
  listen_context_initialize, k_statistics_timeout_ms, is_main_worker,
}
use urn.Uring.Events.{add_recvmsg, queue_entries}
use urn.Uring.Events.Owned.{count_kind, same_kind, Owned, IsFor, AllFor, AllFor-frame}
use urn.Uring.Events.Pool.{kinds, alloc_event-Allocated, ring-Owned, free-not-ring}
use urn.Uring.Worker.{first_receive, first_timeout, start_receives}
use urn.Uring.Worker.Rearm.{add_timeout-Rearmed}
use urn.Uring.Worker.Invariant.{Settled, nothing}

count-push_ids : (a n : ℕ) → count a (push_ids n) ≡ (if ltb a n then 1 else 0)
unfolding push_ids
count-push_ids a zero = ground arith
count-push_ids a (suc n) = ground (arith, count-push_ids a n)

length-push_ids : (n : ℕ) → length (push_ids n) ≡ n
unfolding push_ids
length-push_ids zero = refl
length-push_ids (suc n) = ap suc (length-push_ids n)

listen_context_initialize-Owned :
    (thread_index : ℕ) → Owned (listen_context_initialize thread_index) []
unfolding listen_context_initialize
listen_context_initialize-Owned thread_index = record {
  once = λ a. omega (arith, count-push_ids a 16);
  armed = tt;
  all_there = omega (arith, length-push_ids 16);
}

-- A receive, or a timer, that takes a new event from the pool.
record Armed (kind : RingEventType) (io io' : Context) : Type 0 where
  owned : Owned io' []
  counts : (k : RingEventType) → kinds k io' ≡ (if same_kind k kind then 1 else 0) + kinds k io
  queued : (io'.unsubmitted ≡ suc io.unsubmitted) × (length io'.ring ≡ suc (length io.ring))
  same_worker :
      (io'.thread_index ≡ io.thread_index)
      × (io'.client_socket ≡ io.client_socket)
      × (io'.peer_socket ≡ io.peer_socket)
  on_files : AllFor io.io_events io.ring → AllFor io'.io_events io'.ring
  one_less : suc (length io'.free_event_ids) ≡ length io.free_event_ids

uncons : (n : ℕ) (xs : List ℕ) → length xs ≡ suc n → (x : ℕ) × (rest : List ℕ) × (xs ≡ x ∷ rest)
uncons n [] e = absurd (omega arith)
uncons n (x ∷ xs) e = (x, xs, refl)

module _ {io : Context} (o : Owned io []) (n : ℕ) (some_free : length io.free_event_ids ≡ suc n)
    (room : io.unsubmitted < queue_entries) where
  arm_receive :
      (kind : RingEventType) (socket : Context → ℕ)
      → ((io' : Context)
          → io'.client_socket ≡ io.client_socket
          → io'.peer_socket ≡ io.peer_socket
          → IsFor kind recvmsg (socket io'))
      → (io' : Context) × (first_receive kind socket io ≡ ok io') × Armed kind io io'
  unfolding first_receive add_recvmsg
  arm_receive kind socket place =
      let (id, rest, e) = uncons n io.free_event_ids some_free in
      let (io₁, run, a) = alloc_event-Allocated o kind id rest e in
      let queue : ltb io₁.unsubmitted queue_entries ≡ true = ground (arith, a.same_ring) in
      let q : Sqe = record {
        op = recvmsg;
        socket_id = socket io₁;
        event = id;
        fixed_file = true;
      } in
      (
        record io₁ { ring = q ∷ io₁.ring; unsubmitted = suc io₁.unsubmitted },
        rw (run, queue) refl,
        record {
          owned = ring-Owned io₁ q [] a.owned a.fresh;
          counts =
              λ k. rw a.typed (ap (λ m. (if same_kind k kind then 1 else 0) + m) (a.same_kinds k));
          queued = (ground (arith, a.same_ring), ap suc (ap (length {A = Sqe}) a.same_ring.0));
          same_worker = a.same_worker;
          one_less = a.one_less;
          on_files = λ there. (
            rw a.typed (place io₁ a.same_worker.1 a.same_worker.2),
            rw a.same_ring.0 (
                AllFor-frame id io.io_events io₁.io_events io.ring (free-not-ring o id rest e)
                  a.others there),
          );
        },
      )

  arm_timer : (io' : Context) × (first_timeout io ≡ ok io') × Armed timer io io'
  unfolding first_timeout
  arm_timer =
      let (id, rest, e) = uncons n io.free_event_ids some_free in
      let (io₁, run, a) = alloc_event-Allocated o timer id rest e in
      let room' : io₁.unsubmitted < queue_entries = ground (arith, a.same_ring) in
      let (io₂, run', r) =
        add_timeout-Rearmed a.owned k_statistics_timeout_ms a.fresh.0 a.typed room' in
      (
        io₂,
        rw (run, run') refl,
        record {
          owned = r.owned;
          counts =
              λ k. r.counts k ∙ ap (λ m. (if same_kind k timer then 1 else 0) + m) (a.same_kinds k);
          queued = omega (arith, r.queued, a.same_ring.1, ap (length {A = Sqe}) a.same_ring.0);
          same_worker = (
            r.same_worker.0 ∙ a.same_worker.0,
            r.same_worker.1 ∙ a.same_worker.1,
            r.same_worker.2 ∙ a.same_worker.2,
          );
          one_less = omega (arith, r.same_pool, a.one_less);
          on_files = λ there. r.on_files refl (
              rw a.same_ring.0 (
                AllFor-frame id io.io_events io₁.io_events io.ring (free-not-ring o id rest e)
                  a.others there));
        },
      )

module _ {io₀ : Context} (o : Owned io₀ []) (blank : length io₀.free_event_ids ≡ 16)
    (idle : io₀.unsubmitted ≡ 0) (no_entries : io₀.ring ≡ [])
    (files : (io₀.client_socket ≡ 1) × (io₀.peer_socket ≡ 0)) where
  start_from :
      (io : Context) × (start_receives io₀ ≡ ok io)
      × Settled io [] nothing
      × (io.thread_index ≡ io₀.thread_index)
      × (kinds peer_tx io ≡ 0)
  unfolding start_receives is_main_worker
  start_from =
      let (io₁, run₁, a₁) =
        arm_receive o 15 blank (omega (arith, idle)) client_rx (λ io. io.client_socket)
          (λ io same_client same_peer. (refl, same_client ∙ files.0)) in
      let (io₂, run₂, a₂) =
        arm_receive a₁.owned 14 (omega (arith, a₁.one_less, blank)) (omega (arith, idle, a₁.queued))
          peer_rx (λ io. io.peer_socket)
          (λ io same_client same_peer. (refl, same_peer ∙ a₁.same_worker.2 ∙ files.1)) in
      let (io₃, run₃, a₃) =
        arm_timer a₂.owned 13 (omega (arith, a₂.one_less, a₁.one_less, blank))
          (omega (arith, idle, a₁.queued, a₂.queued)) in
      let none_yet : (k : RingEventType) → kinds k io₀ ≡ 0 =
        λ k. ap (count_kind k io₀.io_events) no_entries in
      let same = a₂.same_worker.0 ∙ a₁.same_worker.0 in
      let two : (io₂.client_socket ≡ 1) × (io₂.peer_socket ≡ 0) = (
        a₂.same_worker.1 ∙ a₁.same_worker.1 ∙ files.0,
        a₂.same_worker.2 ∙ a₁.same_worker.2 ∙ files.1,
      ) in
      let placed : AllFor io₂.io_events io₂.ring = a₂.on_files (a₁.on_files (rw no_entries tt)) in
      elim (Bool-cases (io₂.thread_index == 0)) [
        | inl main ↦ (
          io₃,
          rw (run₁, run₂, main, run₃) refl,
          record {
            owned = a₃.owned;
            one_client = omega (
              arith,
              a₃.counts client_rx,
              a₂.counts client_rx,
              a₁.counts client_rx,
              none_yet client_rx,
            );
            one_peer =
                omega (
                  arith,
                  a₃.counts peer_rx,
                  a₂.counts peer_rx,
                  a₁.counts peer_rx,
                  none_yet peer_rx,
                );
            main_timer =
                rw (a₃.same_worker.0, main)
                  (omega
                    (arith, a₃.counts timer, a₂.counts timer, a₁.counts timer, none_yet timer));
            no_invalid =
                omega (
                  arith,
                  a₃.counts invalid,
                  a₂.counts invalid,
                  a₁.counts invalid,
                  none_yet invalid,
                );
            queued = omega (arith, idle, a₁.queued, a₂.queued, a₃.queued);
            files = (a₃.same_worker.1 ∙ two.0, a₃.same_worker.2 ∙ two.1);
            on_files = a₃.on_files placed;
          },
          a₃.same_worker.0 ∙ same,
          omega (arith, a₃.counts peer_tx, a₂.counts peer_tx, a₁.counts peer_tx, none_yet peer_tx),
        )
        | inr other ↦ (
          io₂,
          rw (run₁, run₂, other) refl,
          record {
            owned = a₂.owned;
            one_client =
                omega (arith, a₂.counts client_rx, a₁.counts client_rx, none_yet client_rx);
            one_peer = omega (arith, a₂.counts peer_rx, a₁.counts peer_rx, none_yet peer_rx);
            main_timer = rw other (omega (arith, a₂.counts timer, a₁.counts timer, none_yet timer));
            no_invalid = omega (arith, a₂.counts invalid, a₁.counts invalid, none_yet invalid);
            queued = omega (arith, idle, a₁.queued, a₂.queued);
            files = two;
            on_files = placed;
          },
          same,
          omega (arith, a₂.counts peer_tx, a₁.counts peer_tx, none_yet peer_tx),
        )
      ]

-- A worker of any index starts up without aborting: one receive is in the ring on each socket, the
-- timer on the main worker, and no send; each other event is free.
pub start_receives-Settled :
    (thread_index : ℕ)
    → (io : Context) × (start_receives (listen_context_initialize thread_index) ≡ ok io)
      × Settled io [] nothing
      × (io.thread_index ≡ thread_index)
      × (kinds peer_tx io ≡ 0)
unfolding listen_context_initialize
start_receives-Settled thread_index =
    start_from (listen_context_initialize-Owned thread_index) (length-push_ids 16) refl refl
      (refl, refl)
