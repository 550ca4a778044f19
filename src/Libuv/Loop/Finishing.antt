-- ===== src/Libuv/Loop/Finishing.antt =====
-- libuv/relay.cpp: the end of a read.
use urn.Prelude.{
  ℕ, ◌<◌, ◌≤◌, ◌≡◌, refl, sym, Bool, true, false, List, [], ◌∷◌, arith, ◌==◌, Bool-cases, inl, inr,
}
use mathlib.Core.Path.{subst}
use mathlib.Core.List.{append-nil}
use urn.IntrusiveStack.{Ptr}
use urn.Relay.Logic.{Tls}
use urn.Relay.Logic.Counters.{threads}
use urn.Libuv.Buffers.{release}
use urn.Libuv.Thread.{St, finish_read}
use urn.Libuv.Loop.Sending.{release-IsOwned, keep-IsOwned, AllIntact-idle}
use urn.Libuv.Loop.Reading.{wires, Reading, Idle, Passes, AllIntact-raise, same-Passes}

kept-Idle :
    {tls : Tls} (i b limit : ℕ) (free : List Ptr) (st : St)
    → Reading i tls b limit free st
    → 0 < (st.world.bufs b).ref_count
    → Idle i tls free st
kept-Idle i b limit free st r busy = record {
  started = r.started;
  owned = keep-IsOwned b free st.world r.owned (omega (arith, r.owned.refs b, busy));
  intact = AllIntact-idle b limit st.world.bufs st.world.sending r.intact;
}

-- The return of a buffer without sends to the pool.
pub released-Idle :
    {tls : Tls} (i b limit : ℕ) (free : List Ptr) (st : St)
    → Reading i tls b limit free st
    → (st.world.bufs b).ref_count ≡ 0
    → Idle i tls (b ∷ free) (record st { world = release b st.world })
      × Passes [] st (record st { world = release b st.world })
released-Idle i b limit free st r e = (
  record {
    started = r.started;
    owned = release-IsOwned b free st.world r.owned r.nonnull (omega (arith, r.owned.refs b, e));
    intact = unfold release in AllIntact-idle b limit st.world.bufs st.world.sending r.intact;
  },
  record {
    wired = unfold release in sym (append-nil (wires st.world.memory st.world.sending));
    sessions = refl;
    same_sent = unfold release in refl;
  },
)

-- The end of a read: its buffer goes to the pool, or stays with its sends.
pub finish_read-Idle :
    {tls : Tls} (i b limit : ℕ) (free : List Ptr) (reused : Bool) (st : St)
    → Reading i tls b limit free st
    → (reused ≡ true → 0 < (st.world.bufs b).ref_count)
    → (free' : List Ptr) × Idle i tls free' (finish_read reused false st)
      × Passes [] st (finish_read reused false st)
unfolding finish_read
finish_read-Idle i b limit free true st r busy =
    (free, kept-Idle i b limit free st r (busy refl), same-Passes st)
finish_read-Idle {tls = tls} i b limit free false st r busy =
    let last = st.world.last_alloc in
    let r' : Reading i tls last limit free st =
      subst (λ x. Reading i tls x limit free st) (sym r.last) r in
    elim (Bool-cases ((st.world.bufs last).ref_count == 0)) [
      | inl none_left ↦
          let (idle, passes) = released-Idle i last limit free st r' (ground arith) in
          rw none_left (last ∷ free, idle, passes)
      | inr some_left ↦
          rw some_left (free, kept-Idle i last limit free st r' (ground arith), same-Passes st)
    ]

-- A read goes on in a later region, whatever was counted or registered.
pub Reading-raise :
    {tls : Tls} (i b limit limit' : ℕ) (free : List Ptr) (st st' : St)
    → limit ≤ limit'
    → st'.world ≡ st.world
    → threads st' ≡ threads st
    → Reading i tls b limit free st
    → Reading i tls b limit' free st'
Reading-raise i b limit limit' free st st' le world same r = record {
  started = rw same r.started;
  owned = rw world r.owned;
  intact = rw world (AllIntact-raise b limit limit' st.world st.world.sending le r.intact);
  nonnull = r.nonnull;
  last = rw world r.last;
}
