-- ===== src/Libuv/Loop/Owned.antt =====
-- Who owns the buffers of a thread: the pool, the read that is under way, or the sends.
use urn.Prelude.{
  ℕ, suc, ◌+◌, ◌/◌, ◌-◌, ◌<◌, ◌≤◌, ◌≡◌, ◌≢◌, refl, Bool, true, false, ◌&&◌, not, List, [], ◌∷◌,
  ◌++◌, some, ok, arith, ltb, ◌==◌, if◌then◌else◌, update, count,
}
use urn.IntrusiveStack.{Ptr, nullptr, try_pop, write_hook}
use urn.IntrusiveStack.Chain.{has, Holds}
use urn.Libuv.Buffers.{
  Send, Thread, IoBuf, Chunk, new_io_buf, data_size, chunks_size, alloc, allocate, take_buffer,
}

-- How many of the sends are from the buffer.
abbrev pub sends_of : Ptr → List Send → ℕ
sends_of p [] = 0
sends_of p (s ∷ rest) = (if p == s.buf then 1 else 0) + sends_of p rest

abbrev pub is_live : Ptr → Thread → Bool
is_live p t = ltb 0 p && ltb p t.next_new

-- `free` is what the pool holds, `current` the buffer of the read that is under way, or null.
pub record IsOwned (current : Ptr) (free : List Ptr) (t : Thread) : Type 0 where
  pub stack : Holds t.hooks t.pool free
  pub place :
      (p : Ptr)
      → count p free
        ≡ (if is_live p t && (not (p == current) && (sends_of p t.sending == 0)) then 1 else 0)
  pub dead : (p : Ptr) → is_live p t ≡ false → sends_of p t.sending ≡ 0
  pub refs : (p : Ptr) → (t.bufs p).ref_count ≡ sends_of p t.sending
  pub few : (p : Ptr) → (t.bufs p).ref_count ≤ chunks_size
  pub under_way : current ≢ nullptr → is_live current t ≡ true
  pub some_new : 0 < t.next_new

-- A send that is under way has its chunk, and its bytes lie in its own buffer; in the buffer of the
-- read that is under way, below `limit` and in a chunk that is counted.
pub record IsIntact (current : Ptr) (limit : ℕ) (bufs : Ptr → IoBuf) (s : Send) : Type 0 where
  pub chunk : Chunk
  pub found : (bufs s.buf).chunks s.slot ≡ some chunk
  pub len : chunk.packet.length ≡ s.len
  pub nonnull : s.buf ≢ nullptr
  pub home : s.base / data_size ≡ s.buf
  pub counted : s.buf ≡ current → s.slot < (bufs current).ref_count
  pub below : s.buf ≡ current → s.base < limit

abbrev pub AllIntact : Ptr → ℕ → (Ptr → IoBuf) → List Send → Type 0
AllIntact current limit bufs [] = Unit {0}
AllIntact current limit bufs (s ∷ rest) =
    IsIntact current limit bufs s × AllIntact current limit bufs rest

pub has-count : (p : Ptr) (xs : List Ptr) → count p xs ≡ 0 → has p xs ≡ false
has-count p [] h = refl
has-count p (x ∷ xs) h = ground (arith, has-count p xs)

pub sends_of-append :
    (p : Ptr) (xs ys : List Send) → sends_of p (xs ++ ys) ≡ sends_of p xs + sends_of p ys
sends_of-append p [] ys = omega arith
sends_of-append p (s ∷ xs) ys = omega (arith, sends_of-append p xs ys)

-- Allocation between two reads: the buffer that comes is the current one, and no send is from it.
pub alloc-IsOwned :
    (free : List Ptr) (t : Thread)
    → IsOwned nullptr free t
    → (t.pool.top_ ≡ nullptr → 0 < t.room)
    → (b : Ptr) × (t' : Thread) × (rest : List Ptr) × (alloc t ≡ ok (b, t'))
      × IsOwned b rest t'
      × (b ≢ nullptr)
      × (sends_of b t'.sending ≡ 0)
      × (t'.last_alloc ≡ b)
      × ((p : Ptr) → p ≢ b → t'.bufs p ≡ t.bufs p)
      × (t'.sending ≡ t.sending)
      × (t'.memory ≡ t.memory)
      × (t'.sent ≡ t.sent)
unfolding alloc allocate take_buffer try_pop
alloc-IsOwned [] t o room =
    let left : 0 < t.room = room o.stack in
    (
      t.next_new,
      record t {
        bufs = update (update t.bufs t.next_new new_io_buf) t.next_new new_io_buf;
        hooks = write_hook t.hooks t.next_new nullptr;
        next_new = suc t.next_new;
        room = t.room - 1;
        last_alloc = t.next_new;
      },
      [],
      ground arith,
      record {
        stack = o.stack;
        place = λ p. ground (arith, o.place p, o.dead p);
        dead = λ p. ground (arith, o.dead p);
        refs = λ p. ground (arith, o.refs p, o.dead p);
        few = λ p. ground (arith, o.few p);
        under_way = λ _. ground (arith, o.some_new);
        some_new = omega arith;
      },
      ground (arith, o.some_new),
      ground (arith, o.dead t.next_new),
      refl,
      λ p ne. ground arith,
      refl,
      refl,
      refl,
    )
alloc-IsOwned (x ∷ rest) t o room =
    let e : t.pool.top_ ≡ x = o.stack.0 in
    let nn : (x == nullptr) ≡ false = ground (arith, o.stack.1) in
    (
      x,
      record t {
        pool = record { top_ = t.hooks x };
        bufs = update t.bufs x (record (t.bufs x) { ref_count = 0 });
        last_alloc = x;
      },
      rest,
      ground arith,
      record {
        stack = o.stack.3;
        place = λ p. ground (arith, o.place p, o.place x);
        dead = o.dead;
        refs = λ p. ground (arith, o.refs p, o.place x);
        few = λ p. ground (arith, o.few p);
        under_way = λ _. ground (arith, o.place x);
        some_new = o.some_new;
      },
      o.stack.1,
      ground (arith, o.place x),
      refl,
      λ p ne. ground arith,
      refl,
      refl,
      refl,
    )
