-- ===== src/Uring/Events/Owned.antt =====
-- Who owns the sixteen events: the free list, the ring, or the code that is about to use them.
use urn.Prelude.{
  ℕ, ◌+◌, ◌*◌, ◌≡◌, ◌≢◌, ◌⊎◌, refl, Bool, true, false, List, [], ◌∷◌, ◌++◌, arith, ltb, ◌==◌,
  if◌then◌else◌, length, update, count,
}
use urn.Uring.Context.{
  Context, RingEvent, RingEventType, invalid, client_rx, peer_rx, peer_tx, timer, Sqe, num_events,
  Opcode, recvmsg, sendmsg, poll_timeout, memory_per_packet,
}
use urn.Uring.Events.{iov_base}

abbrev pub count_ring : ℕ → List Sqe → ℕ
count_ring a [] = 0
count_ring a (q ∷ qs) = (if a == q.event then 1 else 0) + count_ring a qs

abbrev pub same_kind : RingEventType → RingEventType → Bool
same_kind invalid invalid = true
same_kind client_rx client_rx = true
same_kind peer_rx peer_rx = true
same_kind peer_tx peer_tx = true
same_kind timer timer = true
same_kind _ _ = false

-- The entries of the ring whose event is of a kind.
abbrev pub count_kind : RingEventType → (ℕ → RingEvent) → List Sqe → ℕ
count_kind k ev [] = 0
count_kind k ev (q ∷ qs) = (if same_kind k (ev q.event).kind then 1 else 0) + count_kind k ev qs

-- Each entry's event knows its own index, and an event that receives or sends has its own region.
abbrev pub IsArmed : RingEvent → ℕ → Type 0
IsArmed e id =
    (e.index ≡ id) × ((same_kind timer e.kind ≡ true) ⊎ (iov_base e.body ≡ id * memory_per_packet))

-- The operation and the socket of an entry, for its event's kind. 1 and 0 are the places of the
-- clients' and the peers' socket in the table of registered files.
abbrev pub IsFor : RingEventType → Opcode → ℕ → Type 0
IsFor client_rx op socket_id = (op ≡ recvmsg) × (socket_id ≡ 1)
IsFor peer_rx op socket_id = (op ≡ recvmsg) × (socket_id ≡ 0)
IsFor peer_tx op socket_id = (op ≡ sendmsg) × (socket_id ≡ 1)
IsFor timer op socket_id = op ≡ poll_timeout
IsFor invalid op socket_id = ⊥

abbrev pub AllFor : (ℕ → RingEvent) → List Sqe → Type 0
AllFor ev [] = Unit {0}
AllFor ev (q ∷ qs) = IsFor (ev q.event).kind q.op q.socket_id × AllFor ev qs

abbrev pub AllArmed : (ℕ → RingEvent) → List Sqe → Type 0
AllArmed ev [] = Unit {0}
AllArmed ev (q ∷ qs) = IsArmed (ev q.event) q.event × AllArmed ev qs

-- Each of the sixteen events is in exactly one place, once: free, in the ring, or held.
pub record Owned (io : Context) (held : List ℕ) : Type 0 where
  pub once :
      (a : ℕ)
      → count a io.free_event_ids + count_ring a io.ring + count a held
        ≡ (if ltb a num_events then 1 else 0)
  pub armed : AllArmed io.io_events io.ring
  pub all_there : length io.free_event_ids + length io.ring + length held ≡ num_events

-- A change of an event that is not in the ring does not show there.
pub count_kind-update :
    (k : RingEventType) (ev : ℕ → RingEvent) (id : ℕ) (e : RingEvent) (qs : List Sqe)
    → count_ring id qs ≡ 0
    → count_kind k (update ev id e) qs ≡ count_kind k ev qs
count_kind-update k ev id e [] out = refl
count_kind-update k ev id e (q ∷ qs) out =
    let other : (id == q.event) ≡ false = ground arith in
    let rest : count_ring id qs ≡ 0 = ground arith in
    rw (other, count_kind-update k ev id e qs rest)

pub AllArmed-update :
    (ev : ℕ → RingEvent) (id : ℕ) (e : RingEvent) (qs : List Sqe)
    → count_ring id qs ≡ 0
    → AllArmed ev qs
    → AllArmed (update ev id e) qs
AllArmed-update ev id e [] out a = tt
AllArmed-update ev id e (q ∷ qs) out (h, a) =
    let other : (id == q.event) ≡ false = ground arith in
    (rw other h, AllArmed-update ev id e qs (ground arith) a)

-- Only events outside of the ring differ.
pub AllFor-frame :
    (id : ℕ) (ev ev' : ℕ → RingEvent) (qs : List Sqe)
    → count_ring id qs ≡ 0
    → ((a : ℕ) → a ≢ id → ev' a ≡ ev a)
    → AllFor ev qs
    → AllFor ev' qs
AllFor-frame id ev ev' [] out same h = tt
AllFor-frame id ev ev' (q ∷ qs) out same (here, there) =
    let rest : count_ring id qs ≡ 0 = ground arith in
    let other : (id == q.event) ≡ false = ground arith in
    let ne : q.event ≢ id = λ e. ground arith in
    (rw (same q.event ne) here, AllFor-frame id ev ev' qs rest same there)

pub AllFor-split :
    (ev : ℕ → RingEvent) (xs : List Sqe) (q : Sqe) (ys : List Sqe)
    → AllFor ev (xs ++ q ∷ ys)
    → AllFor ev (xs ++ ys)
AllFor-split ev [] q ys (h, a) = a
AllFor-split ev (x ∷ xs) q ys (h, a) = (h, AllFor-split ev xs q ys a)
