-- ===== src/Libuv/Loop/Completion.antt =====
-- libuv/relay.cpp: completed sends and the ownership of the buffers.
use urn.Prelude.{
  ℕ, ◌+◌, ◌%◌, ◌-◌, ◌≡◌, ◌≢◌, refl, ap, List, [], ◌∷◌, ◌++◌, arith, ◌==◌, update, Bool-cases, inl,
  inr, count,
}
use urn.IntrusiveStack.{Ptr, nullptr}
use urn.Libuv.Buffers.{Send, Thread, IoBuf, release}
use urn.Relay.Statistics.{size_mod}
use urn.Libuv.Thread.{drop_ref}
use mathlib.Core.Path.{subst}
use urn.Libuv.Loop.{completed, on_wire}
use urn.Libuv.Loop.Owned.{IsOwned, IsIntact, AllIntact, sends_of, sends_of-append}
use urn.Libuv.Loop.Sending.{release-IsOwned, keep-IsOwned}

-- The reference count of a buffer is no part of its chunks.
AllIntact-count :
    (b n : ℕ) (bufs : Ptr → IoBuf) (xs : List Send)
    → AllIntact nullptr 0 bufs xs
    → AllIntact nullptr 0 (update bufs b (record (bufs b) { ref_count = n })) xs
AllIntact-count b n bufs [] h = tt
AllIntact-count b n bufs (s ∷ xs) (i, is) = (
  record {
    chunk = i.chunk;
    found = ground (arith, i.found);
    len = i.len;
    nonnull = i.nonnull;
    home = i.home;
    counted = λ e. absurd (i.nonnull e);
    below = λ e. absurd (i.nonnull e);
  },
  AllIntact-count b n bufs xs is,
)

pub AllIntact-at :
    (b limit : ℕ) (bufs : Ptr → IoBuf) (before : List Send) (s : Send) (after : List Send)
    → AllIntact b limit bufs (before ++ (s ∷ after))
    → IsIntact b limit bufs s × AllIntact b limit bufs (before ++ after)
AllIntact-at b limit bufs [] s after (i, is) = (i, is)
AllIntact-at b limit bufs (x ∷ before) s after (i, is) =
    let (j, js) = AllIntact-at b limit bufs before s after is in (j, (i, js))

-- The buffers after a callback: one reference less.
abbrev dropped : Ptr → Thread → Ptr → IoBuf
dropped b t =
    update t.bufs b
      (record (t.bufs b) { ref_count = ((t.bufs b).ref_count + size_mod - 1) % size_mod })

dropped-IsOwned :
    (before : List Send) (s : Send) (after : List Send) (free : List Ptr) (t : Thread)
    → IsOwned nullptr free t
    → t.sending ≡ before ++ (s ∷ after)
    → s.buf ≢ nullptr
    → IsOwned s.buf free (record (completed before s after t) { bufs = dropped s.buf t })
      × (((t.bufs s.buf).ref_count + size_mod - 1) % size_mod ≡ sends_of s.buf (before ++ after))
dropped-IsOwned before s after free t o e nn =
    let b = s.buf in
    let split = λ (q : Ptr). sends_of-append q before (s ∷ after) in
    let joined = λ (q : Ptr). sends_of-append q before after in
    let all = λ (q : Ptr). ap (sends_of q) e in
    let count_after : ((t.bufs b).ref_count + size_mod - 1) % size_mod
        ≡ sends_of b (before ++ after) =
      ground (arith, o.few b, o.refs b, split b, joined b, all b) in
    (
      record {
        stack = o.stack;
        place = λ q. ground (arith, o.place q, split q, joined q, all q);
        dead = λ q. ground (arith, o.dead q, split q, joined q, all q);
        refs = λ q. ground (arith, count_after, o.refs q, split q, joined q, all q);
        few = λ q. ground (arith, o.few q, o.few b, o.refs b, split b, all b);
        under_way = λ _. ground (arith, o.dead b, split b, all b);
        some_new = o.some_new;
      },
      count_after,
    )

-- When a send is over, its buffer has one send less, and goes to the pool if that was its last.
pub drop_ref-IsOwned :
    (before : List Send) (s : Send) (after : List Send) (free : List Ptr) (t : Thread)
    → IsOwned nullptr free t
    → AllIntact nullptr 0 t.bufs t.sending
    → t.sending ≡ before ++ (s ∷ after)
    → let t' = drop_ref s.buf (completed before s after t) in
      (free' : List Ptr) × IsOwned nullptr free' t'
      × AllIntact nullptr 0 t'.bufs t'.sending
      × (t'.sending ≡ before ++ after)
      × (t'.memory ≡ t.memory)
      × (t'.sent ≡ t.sent ++ (on_wire s t.memory ∷ []))
unfolding drop_ref
drop_ref-IsOwned before s after free t o i e =
    let b = s.buf in
    let n = ((t.bufs b).ref_count + size_mod - 1) % size_mod in
    let whole : AllIntact nullptr 0 t.bufs (before ++ (s ∷ after)) =
      subst (AllIntact nullptr 0 t.bufs) e i in
    let (here, rest) = AllIntact-at nullptr 0 t.bufs before s after whole in
    let (o', count) = dropped-IsOwned before s after free t o e here.nonnull in
    let u = record (completed before s after t) { bufs = dropped b t } in
    let kept = AllIntact-count b n t.bufs (before ++ after) rest in
    elim (Bool-cases (n == 0)) [
      | inl last ↦
          let r = release-IsOwned b free u o' here.nonnull (ground arith) in
          rw last (
            b ∷ free,
            r,
            unfold release in kept,
            unfold release in refl,
            unfold release in refl,
            unfold release in refl,
          )
      | inr more ↦ rw more (free, keep-IsOwned b free u o' (ground arith), kept, refl, refl, refl)
    ]
