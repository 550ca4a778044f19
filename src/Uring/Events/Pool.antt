-- ===== src/Uring/Events/Pool.antt =====
-- `alloc_event`, `release_event` and the entries of the ring against the ownership of events.
use urn.Prelude.{
  fault, abort, ℕ, suc, ◌+◌, ◌*◌, ◌<◌, ◌≡◌, ◌≢◌, inr, refl, ap, true, List, [], ◌∷◌, ◌++◌, arith,
  ltb, ◌==◌, if◌then◌else◌, length, ok, length-append, update, count,
}
use urn.Uring.Context.{
  Context, RingEvent, RingEventType, Sqe, rx, Sqe, num_events, memory_per_packet,
}
use urn.Uring.Events.{alloc_event, release_event, address_of}
use urn.Uring.Events.Owned.{
  count_ring, count_kind, same_kind, IsArmed, AllArmed, Owned, count_kind-update, AllArmed-update,
}

abbrev pub kinds : RingEventType → Context → ℕ
kinds k io = count_kind k io.io_events io.ring

-- What an allocation of the event `id` has done.
pub record Allocated (kind : RingEventType) (io : Context) (held : List ℕ) (id : ℕ) (io' : Context)
    : Type 0 where
  pub owned : Owned io' (id ∷ held)
  pub typed : (io'.io_events id).kind ≡ kind
  pub fresh : IsArmed (io'.io_events id) id
  pub same_kinds : (k : RingEventType) → kinds k io' ≡ kinds k io
  pub same_ring : (io'.ring ≡ io.ring) × (io'.unsubmitted ≡ io.unsubmitted)
  pub same_memory : io'.messages_buffer ≡ io.messages_buffer
  pub others : (a : ℕ) → a ≢ id → io'.io_events a ≡ io.io_events a
  pub same_worker :
      (io'.thread_index ≡ io.thread_index)
      × (io'.client_socket ≡ io.client_socket)
      × (io'.peer_socket ≡ io.peer_socket)
  pub one_less : suc (length io'.free_event_ids) ≡ length io.free_event_ids

module _ {io : Context} {held : List ℕ} (o : Owned io held) where
  free_fact :
      (id : ℕ) (rest : List ℕ)
      → io.free_event_ids ≡ id ∷ rest
      → (id < num_events) × (count_ring id io.ring ≡ 0)
  free_fact id rest e =
      let at = o.once id in
      let first : count id io.free_event_ids ≡ 1 + count id rest = rw e (ground arith) in
      (ground (arith, at, first), ground (arith, at, first))

  -- With a free event, allocation returns the one released last, and makes it the caller's.
  pub alloc_event-Allocated :
      (kind : RingEventType) (id : ℕ) (rest : List ℕ)
      → io.free_event_ids ≡ id ∷ rest
      → (io' : Context) × (alloc_event kind io ≡ ok (id, io')) × Allocated kind io held id io'
  unfolding alloc_event
  alloc_event-Allocated kind id rest e =
      let (small, out) = free_fact id rest e in
      let lt : ltb id num_events ≡ true = ground arith in
      let self : (id == id) ≡ true = ground arith in
      let event : RingEvent = record {
        kind = kind;
        index = id;
        body = rx (id * memory_per_packet) memory_per_packet (address_of (io.io_events id).body);
      } in
      (
        record io { free_event_ids = rest; io_events = update io.io_events id event },
        rw (e, alloc_event, lt) refl,
        record {
          owned = record {
            once = λ a. ground (arith, o.once a, ap (count a) e);
            armed = AllArmed-update io.io_events id event io.ring out o.armed;
            all_there = omega (arith, o.all_there, ap (length {A = ℕ}) e);
          };
          typed = rw self refl;
          fresh = rw self (refl, inr refl);
          same_kinds = λ k. count_kind-update k io.io_events id event io.ring out;
          same_ring = (refl, refl);
          same_memory = refl;
          others = λ a ne. ground arith;
          same_worker = (refl, refl, refl);
          one_less = omega (arith, ap (length {A = ℕ}) e);
        },
      )

-- A released event joins the free list, and nothing else changes hands.
pub release_event-Owned :
    (io : Context) (ev : ℕ) (held : List ℕ)
    → Owned io (ev ∷ held)
    → (io.io_events ev).index ≡ ev
    → Owned (release_event ev io) held
unfolding release_event
release_event-Owned io ev held o e = record {
  once = λ a. rw e (ground (arith, o.once a));
  armed = o.armed;
  all_there = omega (arith, o.all_there);
}

-- An armed event that is put into the ring belongs to the ring from then on.
pub ring-Owned :
    (io : Context) (q : Sqe) (held : List ℕ)
    → Owned io (q.event ∷ held)
    → IsArmed (io.io_events q.event) q.event
    → Owned (record io { ring = q ∷ io.ring; unsubmitted = suc io.unsubmitted }) held
ring-Owned io q held o h = record {
  once = λ a. ground (arith, o.once a);
  armed = (h, o.armed);
  all_there = omega (arith, o.all_there);
}

count_ring-append :
    (a : ℕ) (xs ys : List Sqe) → count_ring a (xs ++ ys) ≡ count_ring a xs + count_ring a ys
count_ring-append a [] ys = omega arith
count_ring-append a (x ∷ xs) ys = omega (arith, count_ring-append a xs ys)

count_kind-append :
    (k : RingEventType) (ev : ℕ → RingEvent) (xs ys : List Sqe)
    → count_kind k ev (xs ++ ys) ≡ count_kind k ev xs + count_kind k ev ys
count_kind-append k ev [] ys = omega arith
count_kind-append k ev (x ∷ xs) ys = omega (arith, count_kind-append k ev xs ys)

AllArmed-split :
    (ev : ℕ → RingEvent) (xs : List Sqe) (q : Sqe) (ys : List Sqe)
    → AllArmed ev (xs ++ q ∷ ys)
    → IsArmed (ev q.event) q.event × AllArmed ev (xs ++ ys)
AllArmed-split ev [] q ys (h, a) = (h, a)
AllArmed-split ev (x ∷ xs) q ys (h, a) = let (h', a') = AllArmed-split ev xs q ys a in (h', (h, a'))

-- The ring without an entry that completes.
abbrev pub complete : List Sqe → List Sqe → Context → Context
complete xs ys io = record io { ring = xs ++ ys }

-- The event of a completed entry is the caller's, is armed, and is missing from its kind's entries.
pub complete-Owned :
    (io : Context) (xs : List Sqe) (q : Sqe) (ys : List Sqe)
    → io.ring ≡ xs ++ (q ∷ ys)
    → Owned io []
    → Owned (complete xs ys io) (q.event ∷ [])
      × IsArmed (io.io_events q.event) q.event
      × ((k : RingEventType)
          → kinds k io
            ≡ (if same_kind k (io.io_events q.event).kind then 1 else 0)
              + kinds k (complete xs ys io))
complete-Owned io xs q ys e o =
    let (h, a) = AllArmed-split io.io_events xs q ys (rw e at o.armed) in
    (
      record {
        once = λ b. ground (
          arith,
          o.once b,
          ap (count_ring b) e,
          count_ring-append b xs (q ∷ ys),
          count_ring-append b xs ys,
        );
        armed = a;
        all_there = omega (
          arith,
          o.all_there,
          ap (length {A = Sqe}) e,
          length-append xs (q ∷ ys),
          length-append xs ys,
        );
      },
      h,
      λ k. omega (
        arith,
        ap (count_kind k io.io_events) e,
        count_kind-append k io.io_events xs (q ∷ ys),
        count_kind-append k io.io_events xs ys,
      ),
    )

-- Without a free event the process is aborted.
pub alloc_event-exhausted :
    (kind : RingEventType) (io : Context)
    → io.free_event_ids ≡ []
    → alloc_event kind io ≡ fault abort
unfolding alloc_event
alloc_event-exhausted kind io e = rw (e, alloc_event)

-- A held event is not in the ring.
pub held-not-ring :
    {io : Context} {id : ℕ} {held : List ℕ} → Owned io (id ∷ held) → count_ring id io.ring ≡ 0
held-not-ring {io} {id} {held} o =
    let self : (id == id) ≡ true = ground arith in ground (arith, o.once id)

-- Neither is a free one.
pub free-not-ring :
    {io : Context} {held : List ℕ} (o : Owned io held) (id : ℕ) (rest : List ℕ)
    → io.free_event_ids ≡ id ∷ rest
    → count_ring id io.ring ≡ 0
free-not-ring o id rest e = (free_fact o id rest e).1

-- Whoever holds an event may write to it, and to the regions.
pub write_event-Owned :
    {io : Context} (id : ℕ) (held : List ℕ) (e : RingEvent) (memory : ℕ → List ℕ)
    → Owned io (id ∷ held)
    → let io' = record io { io_events = update io.io_events id e; messages_buffer = memory } in
      Owned io' (id ∷ held) × ((k : RingEventType) → kinds k io' ≡ kinds k io)
write_event-Owned {io} id held e memory o =
    let out = held-not-ring o in
    (
      record {
        once = o.once;
        armed = AllArmed-update io.io_events id e io.ring out o.armed;
        all_there = o.all_there;
      },
      λ k. count_kind-update k io.io_events id e io.ring out,
    )
