-- ===== src/Libuv/Loop/Peers.antt =====
-- libuv/relay.cpp: a read from the peers' socket.
use urn.Prelude.{
  ℕ, suc, ◌+◌, ◌*◌, ◌/◌, ◌<◌, ◌≤◌, ◌≡◌, refl, ap, sym, ◌∙◌, Bool, true, false, List, [], ◌∷◌, ◌++◌,
  Option, ok, arith, ◌==◌, length, Datagram,
}
use mathlib.Core.List.{append_assoc, append-nil}
use urn.IntrusiveStack.{Ptr, nullptr}
use urn.Relay.Logic.{Tls}
use urn.Relay.Logic.Routing.{named, table_of}
use urn.Libuv.Buffers.{Session, Send, Thread, data_of, data_size, chunks_size, alloc_buffer}
use urn.Libuv.Thread.{St, UdpSend, die_on_error, take_peer_packet, finish_read, on_peer_read}
use urn.Libuv.Loop.{
  region_size, cut, write_region, read_chunks, Reads, read_error, single, chunked, hand_out, read,
}
use urn.Libuv.Loop.Owned.{alloc-IsOwned}
use urn.Libuv.Loop.Sending.{AllIntact-begin}
use urn.Libuv.Loop.Reading.{wires, Reading, Idle, Passes, to_client, write_region-Reading}
use urn.Libuv.Loop.Taking.{Taken, take_peer_packet-Taken}
use urn.Libuv.Loop.Finishing.{finish_read-Idle}

-- The specification: each datagram whose first eight bytes name a session goes to the client of that
-- session.
unfoldable pub routed : (ℕ → Option Session) → List Datagram → List Datagram
routed table [] = []
routed table (d ∷ ds) = to_client (named table (cut d)) (cut d) ++ routed table ds

pub trans-Passes :
    (ds es : List Datagram) (st st₁ st₂ : St)
    → Passes ds st st₁
    → Passes es st₁ st₂
    → Passes (ds ++ es) st st₂
trans-Passes ds es st st₁ st₂ f g = record {
  wired =
      g.wired
      ∙ ap (λ ws. ws ++ es) f.wired
      ∙ append_assoc (wires st.world.memory st.world.sending) ds es;
  sessions = g.sessions ∙ f.sessions;
  same_sent = g.same_sent ∙ f.same_sent;
}

finish_chunk : (reused : Bool) (st : St) → finish_read reused true st ≡ st
unfolding finish_read
finish_chunk true st = refl
finish_chunk false st = refl

pub written : (a : ℕ) (d : Datagram) (st : St) → (write_region a d st).world.memory a ≡ cut d
unfolding write_region
written a d st = let self : (a == a) ≡ true = ground arith in rw self refl

pub same_count :
    (a : ℕ) (d : Datagram) (b : Ptr) (st : St)
    → ((write_region a d st).world.bufs b).ref_count ≡ (st.world.bufs b).ref_count
unfolding write_region
same_count a d b st = refl

module _ (udp_send : UdpSend) (accepts : (t : Thread) (s : Send) → udp_send t s ≡ true) where
  -- One datagram of a read: the kernel has written it, and the callback has not yet ended.
  peer_datagram :
      {tls : Tls} (i b limit : ℕ) (free : List Ptr) (d : Datagram) (st : St)
      → limit / data_size ≡ b
      → (st.world.bufs b).ref_count < chunks_size
      → Reading i tls b limit free st
      → (reused : Bool) × (st' : St) × (take_peer_packet udp_send tls
            (length (cut d))
            limit
            d.address
            (write_region limit d st)
          ≡ ok (reused, st'))
        × Taken
            (to_client (named (table_of st) (cut d)) (cut d))
            i
            tls
            b
            (limit + region_size)
            free
            reused
            st
            st'
  peer_datagram i b limit free d st home room r =
      let (r₁, p₁) = write_region-Reading i b limit free d st home r in
      let (reused, st', run, t) =
        take_peer_packet-Taken udp_send accepts i b limit (limit + region_size) free d.address
          (cut d) (write_region limit d st) home (omega arith)
          (omega (arith, same_count limit d b st)) r₁ (written limit d st) in
      (
        reused,
        st',
        run,
        record {
          reading = t.reading;
          passes =
              trans-Passes [] (to_client (named (table_of st) (cut d)) (cut d)) st
                (write_region limit d st) st' p₁ (unfold write_region in t.passes);
          one_more = omega (arith, t.one_more, same_count limit d b st);
          busy = t.busy;
        },
      )

  read_chunks-Idle :
      {tls : Tls} (i b base k limit : ℕ) (free : List Ptr) (ds : List Datagram) (st : St)
      → limit ≡ b * data_size + k * region_size
      → k + length ds ≤ 2
      → (st.world.bufs b).ref_count ≤ k
      → Reading i tls b limit free st
      → (free' : List Ptr) × (st' : St) × (read_chunks (on_peer_read udp_send tls) base limit ds st
          ≡ ok st')
        × Idle i tls free' st'
        × Passes (routed (table_of st) ds) st st'
  unfolding read_chunks on_peer_read die_on_error routed
  read_chunks-Idle i b base k limit free [] st at fits few r =
      let (free', idle, passes) = finish_read-Idle i b limit free false st r (λ e. absurd (cc)) in
      (free', finish_read false false st, unfold take_peer_packet in refl, idle, passes)
  read_chunks-Idle {tls = tls} i b base k limit free (d ∷ ds) st at fits few r =
      let (reused, st₁, run, t) =
        peer_datagram i b limit free d st (omega (arith, at, fits)) (omega (arith, few, fits)) r in
      let (free', st', rest, idle, passes) =
        read_chunks-Idle i b base (suc k) (limit + region_size) free ds st₁ (omega (arith, at))
          (omega (arith, fits)) (omega (arith, few, t.one_more)) t.reading in
      let table : Passes (routed (table_of st) ds) st₁ st' = rw (← t.passes.sessions) passes in
      (
        free',
        st',
        rw (run, finish_chunk reused st₁, rest) refl,
        idle,
        trans-Passes (to_client (named (table_of st) (cut d)) (cut d)) (routed (table_of st) ds) st
            st₁ st' t.passes table,
      )

-- What a read hands out, and what libuv hands out at most: two regions fit into a buffer.
abbrev pub datagrams_of : Reads → List Datagram
datagrams_of read_error = []
datagrams_of (single d) = d ∷ []
datagrams_of (chunked ds) = ds

abbrev pub IsData : Reads → Type 0
IsData read_error = ⊥
IsData (single d) = Unit {0}
IsData (chunked ds) = length ds ≤ 2

-- A read begins: its buffer comes from the pool or is new, and has no send.
pub alloc_buffer-Reading :
    {tls : Tls} (i : ℕ) (free : List Ptr) (st : St)
    → Idle i tls free st
    → (st.world.pool.top_ ≡ nullptr → 0 < st.world.room)
    → (b : Ptr) × (t : Thread) × (rest : List Ptr) × (alloc_buffer st.world ≡ ok (data_of b, t))
      × Reading i tls b (data_of b) rest (record st { world = t })
      × Passes [] st (record st { world = t })
      × ((t.bufs b).ref_count ≡ 0)
unfolding alloc_buffer
alloc_buffer-Reading i free st idle room =
    let (b, t, rest, run, o, nn, none_yet, last, same, sending, memory, out) =
      alloc-IsOwned free st.world idle.owned room in
    (
      b,
      t,
      rest,
      rw run refl,
      record {
        started = idle.started;
        owned = o;
        intact = rw sending (
            AllIntact-begin b (data_of b) st.world.bufs t.bufs st.world.sending
              (rw (← sending) none_yet) same idle.intact);
        nonnull = nn;
        last = last;
      },
      record {
        wired = rw (memory, sending) (sym (append-nil (wires st.world.memory st.world.sending)));
        sessions = refl;
        same_sent = out;
      },
      o.refs b ∙ none_yet,
    )

module _ (udp_send : UdpSend) (accepts : (t : Thread) (s : Send) → udp_send t s ≡ true) where
  hand_out-Idle :
      {tls : Tls} (i b : ℕ) (free : List Ptr) (r : Reads) (st : St)
      → IsData r
      → (st.world.bufs b).ref_count ≡ 0
      → Reading i tls b (data_of b) free st
      → (free' : List Ptr) × (st' : St) × (hand_out (on_peer_read udp_send tls) (data_of b) r st
          ≡ ok st')
        × Idle i tls free' st'
        × Passes (routed (table_of st) (datagrams_of r)) st st'
  unfolding hand_out on_peer_read die_on_error routed
  hand_out-Idle i b free read_error st proper none_yet r = absurd proper
  hand_out-Idle i b free (single d) st proper none_yet r =
      let (reused, st₁, run, t) =
        peer_datagram udp_send accepts i b (data_of b) free d st (omega arith)
          (omega (arith, none_yet)) r in
      let (free', idle, passes) =
        finish_read-Idle i b (data_of b + region_size) free reused st₁ t.reading t.busy in
      let out = to_client (named (table_of st) (cut d)) (cut d) in
      (
        free',
        finish_read reused false st₁,
        rw run refl,
        idle,
        trans-Passes out [] st st₁ (finish_read reused false st₁) t.passes passes,
      )
  hand_out-Idle i b free (chunked ds) st proper none_yet r =
      read_chunks-Idle udp_send accepts i b (data_of b) 0 (data_of b) free ds st (omega arith)
        (omega (arith, proper)) (omega (arith, none_yet)) r

  -- A read from the peers' socket on a started thread between two reads, of at most two datagrams,
  -- with room for a buffer and with a `uv_udp_send` that accepts every send: no callback faults; each datagram whose first eight bytes name a session
  -- is under way to the client of that session, behind the sends that were under way, with the bytes
  -- received, and no other is; and each buffer is again in the pool or owned by its sends.
  pub peer_read-routed :
      {tls : Tls} (i : ℕ) (free : List Ptr) (r : Reads) (st : St)
      → IsData r
      → Idle i tls free st
      → (st.world.pool.top_ ≡ nullptr → 0 < st.world.room)
      → (free' : List Ptr) × (st' : St) × (read (on_peer_read udp_send tls) r st ≡ ok st')
        × Idle i tls free' st'
        × Passes (routed (table_of st) (datagrams_of r)) st st'
  unfolding read
  peer_read-routed i free r st proper idle room =
      let (b, t, rest, run, reading, begun, none_yet) = alloc_buffer-Reading i free st idle room in
      let st₁ : St = record st { world = t } in
      let (free', st', handed, idle', passes) =
        hand_out-Idle i b rest r st₁ proper none_yet reading in
      (
        free',
        st',
        rw (run, handed) refl,
        idle',
        trans-Passes [] (routed (table_of st) (datagrams_of r)) st st₁ st' begun passes,
      )
