-- ===== src/Uring/Events/Sends.antt =====
-- The datagrams whose sends are in the ring.
use urn.Prelude.{
  ℕ, ◌*◌, ◌≡◌, ◌≢◌, inl, inr, refl, true, false, List, [], ◌∷◌, ◌++◌, arith, if◌then◌else◌, take,
  Datagram, Bool-cases,
}
use urn.Uring.Context.{
  Context, RingEvent, RingEventType, EventData, rx, timeout, timer, peer_tx, Sqe, memory_per_packet,
}
use urn.Uring.Events.{iov_base, address_of}
use urn.Uring.Events.Owned.{count_ring, same_kind, AllArmed}

abbrev pub iov_len : EventData → ℕ
iov_len (rx base len a) = len
iov_len (timeout s ns) = 0

-- What a send of an event puts on the wire: the event's address, and the bytes of its region.
abbrev pub datagram_of : RingEvent → (ℕ → List ℕ) → Datagram
datagram_of e memory = record {
  address = address_of e.body;
  bytes = take (iov_len e.body) (memory (iov_base e.body));
}

-- The sends in some entries of the ring.
abbrev pub sends_in : (ℕ → RingEvent) → (ℕ → List ℕ) → List Sqe → List Datagram
sends_in ev memory [] = []
sends_in ev memory (q ∷ qs) =
    if same_kind peer_tx (ev q.event).kind
    then datagram_of (ev q.event) memory ∷ sends_in ev memory qs
    else sends_in ev memory qs

abbrev pub sends : Context → List Datagram
sends io = sends_in io.io_events io.messages_buffer io.ring

pub sends_in-append :
    (ev : ℕ → RingEvent) (memory : ℕ → List ℕ) (xs ys : List Sqe)
    → sends_in ev memory (xs ++ ys) ≡ sends_in ev memory xs ++ sends_in ev memory ys
sends_in-append ev memory [] ys = refl
sends_in-append ev memory (x ∷ xs) ys = ground (arith, sends_in-append ev memory xs ys)

-- An entry that is no send.
pub sends_in-skip :
    (ev : ℕ → RingEvent) (memory : ℕ → List ℕ) (q : Sqe) (qs : List Sqe)
    → same_kind peer_tx (ev q.event).kind ≡ false
    → sends_in ev memory (q ∷ qs) ≡ sends_in ev memory qs
sends_in-skip ev memory q qs other = rw other refl

not_both : (k : RingEventType) → same_kind peer_tx k ≡ true → same_kind timer k ≡ true → ⊥
not_both peer_tx h t = cc
not_both timer h t = cc
not_both _ h t = cc

-- An event that is not in the ring, and its region, may change without a change of the sends.
pub sends_in-frame :
    (id : ℕ) (ev ev' : ℕ → RingEvent) (memory memory' : ℕ → List ℕ) (qs : List Sqe)
    → count_ring id qs ≡ 0
    → AllArmed ev qs
    → ((a : ℕ) → a ≢ id → ev' a ≡ ev a)
    → ((base : ℕ) → base ≢ id * memory_per_packet → memory' base ≡ memory base)
    → sends_in ev' memory' qs ≡ sends_in ev memory qs
sends_in-frame id ev ev' memory memory' [] out armed events regions = refl
sends_in-frame id ev ev' memory memory' (q ∷ qs) out (h, armed) events regions =
    let rest = sends_in-frame id ev ev' memory memory' qs (ground arith) armed events regions in
    let ne : q.event ≢ id = ground arith in
    let same : ev' q.event ≡ ev q.event = events q.event ne in
    elim (Bool-cases (same_kind peer_tx (ev q.event).kind)) [
      | inl send ↦
          let own : iov_base (ev q.event).body ≡ q.event * memory_per_packet = elim h.1 [
            | inl t ↦ absurd (not_both (ev q.event).kind send t)
            | inr e ↦ e
          ] in
          let there : memory' (iov_base (ev q.event).body) ≡ memory (iov_base (ev q.event).body) =
            regions (iov_base (ev q.event).body) (omega (arith, own)) in
          rw (same, send, there, rest) refl
      | inr other ↦ rw (same, other, rest) refl
    ]
