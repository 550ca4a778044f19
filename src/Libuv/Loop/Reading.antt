-- ===== src/Libuv/Loop/Reading.antt =====
-- libuv/relay.cpp: a read that is under way, and a thread between two reads.
use urn.Prelude.{
  ℕ, ◌/◌, ◌≤◌, ◌≡◌, ◌≢◌, refl, ap, sym, ◌∙◌, false, List, [], ◌∷◌, ◌++◌, Option, none, some, arith,
  ◌==◌, update, Bool-cases, inl, inr, Datagram,
}
use mathlib.Core.List.{append-nil}
use urn.IntrusiveStack.{Ptr, nullptr}
use urn.Relay.Logic.{Tls}
use urn.Relay.Logic.Counters.{IsStarted, threads}
use urn.Libuv.Buffers.{Session, Send, Thread, data_size}
use urn.Libuv.Thread.{St}
use urn.Libuv.Loop.{cut, write_region, on_wire}
use urn.Libuv.Loop.Owned.{IsOwned, AllIntact}

-- The datagrams that are under way, as the memory has them.
abbrev pub wires : (ℕ → List ℕ) → List Send → List Datagram
wires memory [] = []
wires memory (s ∷ rest) = on_wire s memory ∷ wires memory rest

pub wires-append :
    (memory : ℕ → List ℕ) (xs ys : List Send)
    → wires memory (xs ++ ys) ≡ wires memory xs ++ wires memory ys
wires-append memory [] ys = refl
wires-append memory (s ∷ xs) ys = ap (λ r. on_wire s memory ∷ r) (wires-append memory xs ys)

-- A write to the region at `limit` reaches no send that is under way.
pub wires-update :
    (b limit : ℕ) (t : Thread) (memory : ℕ → List ℕ) (bytes : List ℕ) (xs : List Send)
    → limit / data_size ≡ b
    → AllIntact b limit t.bufs xs
    → wires (update memory limit bytes) xs ≡ wires memory xs
wires-update b limit t memory bytes [] home h = refl
wires-update b limit t memory bytes (s ∷ xs) home (i, is) =
    let other : (limit == s.base) ≡ false = elim (Bool-cases (limit == s.base)) [
      | inl e ↦
          let hit : limit ≡ s.base = ground arith in
          let mine : s.buf ≡ b = omega (arith, i.home, home, hit) in
          absurd (omega (arith, i.below mine, hit))
      | inr e ↦ e
    ] in
    rw (other, wires-update b limit t memory bytes xs home is) refl

-- A read is under way with buffer `b`; `limit` is where its next datagram goes.
pub record Reading (i : ℕ) (tls : Tls) (b limit : ℕ) (free : List Ptr) (st : St) : Type 0 where
  pub started : IsStarted i (threads st) tls
  pub owned : IsOwned b free st.world
  pub intact : AllIntact b limit st.world.bufs st.world.sending
  pub nonnull : b ≢ nullptr
  pub last : st.world.last_alloc ≡ b

pub record Idle (i : ℕ) (tls : Tls) (free : List Ptr) (st : St) : Type 0 where
  pub started : IsStarted i (threads st) tls
  pub owned : IsOwned nullptr free st.world
  pub intact : AllIntact nullptr 0 st.world.bufs st.world.sending

-- What stays, and what is sent.
pub record Passes (out : List Datagram) (st st' : St) : Type 0 where
  pub wired :
      wires st'.world.memory st'.world.sending ≡ wires st.world.memory st.world.sending ++ out
  pub sessions : st'.relay.sessions ≡ st.relay.sessions
  pub same_sent : st'.world.sent ≡ st.world.sent

abbrev pub to_client : Option Session → List ℕ → List Datagram
to_client none bytes = []
to_client (some session) bytes = record { address = session.client_endpoint; bytes = bytes } ∷ []

pub write_region-Reading :
    {tls : Tls} (i b limit : ℕ) (free : List Ptr) (d : Datagram) (st : St)
    → limit / data_size ≡ b
    → Reading i tls b limit free st
    → Reading i tls b limit free (write_region limit d st) × Passes [] st (write_region limit d st)
unfolding write_region
write_region-Reading i b limit free d st home r = (
  record {
    started = r.started;
    owned = record {
      stack = r.owned.stack;
      place = r.owned.place;
      dead = r.owned.dead;
      refs = r.owned.refs;
      few = r.owned.few;
      under_way = r.owned.under_way;
      some_new = r.owned.some_new;
    };
    intact = r.intact;
    nonnull = r.nonnull;
    last = r.last;
  },
  record {
    wired =
        wires-update b limit st.world st.world.memory (cut d) st.world.sending home r.intact
        ∙ sym (append-nil (wires st.world.memory st.world.sending));
    sessions = refl;
    same_sent = refl;
  },
)

pub AllIntact-raise :
    (b limit limit' : ℕ) (t : Thread) (xs : List Send)
    → limit ≤ limit'
    → AllIntact b limit t.bufs xs
    → AllIntact b limit' t.bufs xs
AllIntact-raise b limit limit' t [] le h = tt
AllIntact-raise b limit limit' t (s ∷ xs) le (i, is) = (
  record {
    chunk = i.chunk;
    found = i.found;
    len = i.len;
    nonnull = i.nonnull;
    home = i.home;
    counted = i.counted;
    below = λ e. omega (arith, i.below e);
  },
  AllIntact-raise b limit limit' t xs le is,
)

pub same-Passes : (st : St) → Passes [] st st
same-Passes st = record {
  wired = sym (append-nil (wires st.world.memory st.world.sending));
  sessions = refl;
  same_sent = refl;
}
