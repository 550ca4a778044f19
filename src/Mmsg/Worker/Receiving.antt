-- ===== src/Mmsg/Worker/Receiving.antt =====
-- mmsg/relay.cpp: what `recvmmsg` leaves in vectors that `io_vectors_init` has set up.
use urn.Prelude.{
  ℕ, suc, ◌*◌, ◌<◌, ◌≡◌, refl, true, false, List, [], ◌∷◌, length, take, arith, ◌==◌, Datagram,
}
use urn.Mmsg.Vectors.{IoVectors, k_memory_per_packet, written, io_vectors_init}

-- Each message has a region of memory of its own.
pub record IsWired (v : IoVectors) : Type 0 where
  pub base : (i : ℕ) → v.iov_base i ≡ k_memory_per_packet * i
  pub size : (i : ℕ) → v.iov_len i ≡ k_memory_per_packet

-- The bytes of a datagram that fit into a region.
abbrev pub cut : Datagram → List ℕ
cut d = take k_memory_per_packet d.bytes

-- Message `i` is the datagram.
pub record Holds (v : IoVectors) (mem : ℕ → List ℕ) (i : ℕ) (d : Datagram) : Type 0 where
  pub len : v.msg_len i ≡ length (cut d)
  pub content : mem (v.iov_base i) ≡ cut d
  pub source : v.addresses i ≡ d.address

-- The messages from `i` on are the datagrams.
abbrev pub HoldsFrom : IoVectors → (ℕ → List ℕ) → ℕ → List Datagram → Type 0
HoldsFrom v mem i [] = Unit {0}
HoldsFrom v mem i (d ∷ ds) = Holds v mem i d × HoldsFrom v mem (suc i) ds

pub written-IsWired :
    (ds : List Datagram) (i : ℕ) (v : IoVectors) (mem : ℕ → List ℕ)
    → IsWired v
    → IsWired (written ds i (v, mem)).0
written-IsWired [] i v mem w = w
written-IsWired (d ∷ ds) i v mem w =
    written-IsWired ds (suc i) _ _ (record { base = w.base; size = w.size })

-- Messages before `i` stay as they are.
written-below :
    (ds : List Datagram) (i : ℕ) (v : IoVectors) (mem : ℕ → List ℕ) (j : ℕ) (d : Datagram)
    → IsWired v
    → j < i
    → Holds v mem j d
    → Holds (written ds i (v, mem)).0 (written ds i (v, mem)).1 j d
written-below [] i v mem j d w h k = k
written-below (e ∷ ds) i v mem j d w h k =
    let other : (i == j) ≡ false = ground arith in
    let apart : (v.iov_base i == v.iov_base j) ≡ false = rw (w.base i, w.base j) (ground arith) in
    written-below ds (suc i) _ _ j d (record { base = w.base; size = w.size }) (omega (arith, h))
      (record { len = rw other k.len; content = rw apart k.content; source = rw other k.source })

pub written-HoldsFrom :
    (ds : List Datagram) (i : ℕ) (v : IoVectors) (mem : ℕ → List ℕ)
    → IsWired v
    → HoldsFrom (written ds i (v, mem)).0 (written ds i (v, mem)).1 i ds
written-HoldsFrom [] i v mem w = tt
written-HoldsFrom (d ∷ ds) i v mem w =
    let self : (i == i) ≡ true = ground arith in
    let here : (v.iov_base i == v.iov_base i) ≡ true = ground arith in
    (
      written-below ds (suc i) _ _ i d (record { base = w.base; size = w.size }) (omega arith)
          (record {
            len = rw (self, w.size i) refl;
            content = rw (here, w.size i) refl;
            source = rw self refl;
          }),
      written-HoldsFrom ds (suc i) _ _ (record { base = w.base; size = w.size }),
    )

pub io_vectors_init-IsWired :
    (capacity : ℕ) → IsWired (io_vectors_init capacity k_memory_per_packet)
unfolding io_vectors_init
io_vectors_init-IsWired capacity = record { base = λ i. refl; size = λ i. refl }
