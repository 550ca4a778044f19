-- ===== src/Libuv/Loop/Clients.antt =====
-- libuv/relay.cpp: a read from the clients' socket.
use urn.Prelude.{
  ℕ, suc, ◌+◌, ◌*◌, ◌/◌, ◌<◌, ◌≤◌, ◌≡◌, refl, ap, sym, ◌∙◌, true, List, [], ◌∷◌, Option, none, ok,
  arith, ltb, length, Bool-cases, inl, inr, Datagram,
}
use mathlib.Core.Path.{subst}
use mathlib.Core.List.{append-nil}
use urn.IntrusiveStack.{Ptr, nullptr}
use urn.Relay.Sessions.Laws.{or_else}
use urn.Relay.Logic.{Tls}
use urn.Relay.Logic.Counters.{IsStarted, threads}
use urn.Relay.Logic.Registration.{grant}
use urn.Relay.Logic.Routing.{table_of}
use urn.Relay.Logic.Quiet.{
  Registers, same-Registers, or_else_assoc, asked, on_client_received-Registers,
}
use urn.Libuv.Buffers.{Session, data_of, data_size, release}
use urn.Libuv.Thread.{
  St, UdpSend, libuv, die_on_error, packet_at, take_client_packet, on_client_read,
}
use urn.Libuv.Loop.{
  region_size, cut, write_region, read_chunks, Reads, read_error, single, chunked, hand_out, read,
}
use urn.Libuv.Loop.Reading.{wires, Reading, Idle, Passes, write_region-Reading}
use urn.Libuv.Loop.Finishing.{released-Idle, Reading-raise}
use urn.Libuv.Loop.Peers.{datagrams_of, IsData, alloc_buffer-Reading, written, same_count}

-- The specification: an identifier's session is that of the first client that asked for it.
unfoldable pub first_client : List Datagram → ℕ → Option Session
first_client [] id = none
first_client (d ∷ ds) id =
    or_else (grant (libuv (λ t s. true)) d.address (asked (cut d)) id) (first_client ds id)

-- Registrations send nothing.
pub record Admits (grants : ℕ → Option Session) (st st' : St) : Type 0 where
  pub table : (id : ℕ) → table_of st' id ≡ or_else (table_of st id) (grants id)
  pub wired : wires st'.world.memory st'.world.sending ≡ wires st.world.memory st.world.sending
  pub same_sent : st'.world.sent ≡ st.world.sent

admits :
    (grants : ℕ → Option Session) (st st₁ st' : St)
    → Passes [] st st₁
    → Registers grants st₁ st'
    → Admits grants st st'
admits grants st st₁ st' p r = record {
  table = λ id. r.table id ∙ rw p.sessions refl;
  wired = rw r.same_world (p.wired ∙ append-nil (wires st.world.memory st.world.sending));
  same_sent = ap (λ t. t.sent) r.same_world ∙ p.same_sent;
}

trans-Admits :
    (f g : ℕ → Option Session) (st st₁ st₂ : St)
    → Admits f st st₁
    → Admits g st₁ st₂
    → Admits (λ id. or_else (f id) (g id)) st st₂
trans-Admits f g st st₁ st₂ a b = record {
  table = λ id.
      b.table id
      ∙ ap (λ o. or_else o (g id)) (a.table id)
      ∙ or_else_assoc (table_of st id) (f id) (g id);
  wired = b.wired ∙ a.wired;
  same_sent = b.same_sent ∙ a.same_sent;
}

asked-nothing : (bytes : List ℕ) → length bytes ≡ 0 → asked bytes ≡ none
asked-nothing [] h = refl
asked-nothing (x ∷ xs) h = absurd (omega (arith, h))

module _ (udp_send : UdpSend) where
  take_client_packet-Registers :
      {tls : Tls} (i limit : ℕ) (d : Datagram) (st : St)
      → IsStarted i (threads st) tls
      → st.world.memory limit ≡ cut d
      → (st' : St) × (take_client_packet udp_send tls (length (cut d)) limit d.address st ≡ ok st')
        × Registers (grant (libuv udp_send) d.address (asked (cut d))) st st'
  unfolding take_client_packet
  take_client_packet-Registers {tls = tls} i limit d st s mem =
      elim (Bool-cases (ltb 0 (length (cut d)))) [
        | inr empty ↦
            (st, rw empty refl, rw (asked-nothing (cut d) (ground arith)) (same-Registers st))
        | inl some_bytes ↦ rw some_bytes (
            on_client_received-Registers (libuv udp_send) i d.address
              (packet_at limit (length (cut d)) st.world) (cut d) st (λ t. refl) (λ t. refl) s
              (unfold packet_at in refl) (unfold packet_at in mem))
      ]

  -- One datagram of a read: the kernel has written it, and the callback has not yet ended.
  client_datagram :
      {tls : Tls} (i b limit : ℕ) (free : List Ptr) (d : Datagram) (st : St)
      → limit / data_size ≡ b
      → Reading i tls b limit free st
      → (st' : St) × (take_client_packet udp_send tls
            (length (cut d))
            limit
            d.address
            (write_region limit d st)
          ≡ ok st')
        × Reading i tls b (limit + region_size) free st'
        × Admits (grant (libuv udp_send) d.address (asked (cut d))) st st'
        × ((st'.world.bufs b).ref_count ≡ (st.world.bufs b).ref_count)
  client_datagram {tls = tls} i b limit free d st home r =
      let (r₁, p₁) = write_region-Reading i b limit free d st home r in
      let st₁ = write_region limit d st in
      let (st', run, reg) =
        take_client_packet-Registers i limit d st₁ r₁.started (written limit d st) in
      (
        st',
        run,
        Reading-raise i b limit (limit + region_size) free st₁ st' (omega arith) reg.same_world
            reg.same_threads r₁,
        admits (grant (libuv udp_send) d.address (asked (cut d))) st st₁ st' p₁ reg,
        ap (λ t. (t.bufs b).ref_count) reg.same_world ∙ same_count limit d b st,
      )

  -- The last callback of a read.
  last_client_read :
      {tls : Tls} (i b limit : ℕ) (free : List Ptr) (st : St)
      → (st.world.bufs b).ref_count ≡ 0
      → Reading i tls b limit free st
      → let st' : St = record st { world = release st.world.last_alloc st.world } in
        (free' : List Ptr) × Idle i tls free' st' × Admits (λ id. none) st st'
  last_client_read {tls = tls} i b limit free st unsent r =
      let last = st.world.last_alloc in
      let r' : Reading i tls last limit free st =
        subst (λ x. Reading i tls x limit free st) (sym r.last) r in
      let (idle, p) = released-Idle i last limit free st r' (rw r.last unsent) in
      (
        last ∷ free,
        idle,
        record {
          table = (same-Registers st).table;
          wired = p.wired ∙ append-nil (wires st.world.memory st.world.sending);
          same_sent = p.same_sent;
        },
      )

  read_chunks-Admits :
      {tls : Tls} (i b base k limit : ℕ) (free : List Ptr) (ds : List Datagram) (st : St)
      → limit ≡ b * data_size + k * region_size
      → k + length ds ≤ 2
      → (st.world.bufs b).ref_count ≡ 0
      → Reading i tls b limit free st
      → (free' : List Ptr) × (st' : St) × (read_chunks
            (on_client_read udp_send tls)
            base
            limit
            ds
            st
          ≡ ok st')
        × Idle i tls free' st'
        × Admits (first_client ds) st st'
  unfolding read_chunks on_client_read die_on_error first_client
  read_chunks-Admits i b base k limit free [] st at fits unsent r =
      let (free', idle, a) = last_client_read i b limit free st unsent r in
      (
        free',
        record st { world = release st.world.last_alloc st.world },
        unfold take_client_packet in refl,
        idle,
        a,
      )
  read_chunks-Admits {tls = tls} i b base k limit free (d ∷ ds) st at fits unsent r =
      let (st₁, run, r₁, a₁, same) =
        client_datagram i b limit free d st (omega (arith, at, fits)) r in
      let (free', st', rest, idle, a₂) =
        read_chunks-Admits i b base (suc k) (limit + region_size) free ds st₁ (omega (arith, at))
          (omega (arith, fits)) (same ∙ unsent) r₁ in
      (
        free',
        st',
        rw (run, rest) refl,
        idle,
        trans-Admits (grant (libuv udp_send) d.address (asked (cut d))) (first_client ds) st st₁ st'
            a₁ a₂,
      )

  hand_out-Admits :
      {tls : Tls} (i b : ℕ) (free : List Ptr) (r : Reads) (st : St)
      → IsData r
      → (st.world.bufs b).ref_count ≡ 0
      → Reading i tls b (data_of b) free st
      → (free' : List Ptr) × (st' : St) × (hand_out (on_client_read udp_send tls) (data_of b) r st
          ≡ ok st')
        × Idle i tls free' st'
        × Admits (first_client (datagrams_of r)) st st'
  unfolding hand_out on_client_read die_on_error first_client
  hand_out-Admits i b free read_error st proper unsent r = absurd proper
  hand_out-Admits i b free (single d) st proper unsent r =
      let (st₁, run, r₁, a₁, same) = client_datagram i b (data_of b) free d st (omega arith) r in
      let (free', idle, a₂) =
        last_client_read i b (data_of b + region_size) free st₁ (same ∙ unsent) r₁ in
      let st' : St = record st₁ { world = release st₁.world.last_alloc st₁.world } in
      (
        free',
        st',
        rw run refl,
        idle,
        trans-Admits (grant (libuv udp_send) d.address (asked (cut d))) (λ id. none) st st₁ st' a₁
            a₂,
      )
  hand_out-Admits i b free (chunked ds) st proper unsent r =
      read_chunks-Admits i b (data_of b) 0 (data_of b) free ds st (omega arith)
        (omega (arith, proper)) unsent r

  -- A read from the clients' socket on a started thread between two reads, of at most two datagrams,
  -- with room for a buffer: no callback faults; each identifier without a session gets the first
  -- client of the read that asked for it, and the others keep theirs; no send is touched, and the
  -- buffer is again in the pool.
  pub client_read-Admits :
      {tls : Tls} (i : ℕ) (free : List Ptr) (r : Reads) (st : St)
      → IsData r
      → Idle i tls free st
      → (st.world.pool.top_ ≡ nullptr → 0 < st.world.room)
      → (free' : List Ptr) × (st' : St) × (read (on_client_read udp_send tls) r st ≡ ok st')
        × Idle i tls free' st'
        × Admits (first_client (datagrams_of r)) st st'
  unfolding read
  client_read-Admits i free r st proper idle room =
      let (b, t, rest, run, reading, p, unsent) = alloc_buffer-Reading i free st idle room in
      let st₁ : St = record st { world = t } in
      let (free', st', handed, idle', a) = hand_out-Admits i b rest r st₁ proper unsent reading in
      (
        free',
        st',
        rw (run, handed) refl,
        idle',
        record {
          table = a.table;
          wired = a.wired ∙ p.wired ∙ append-nil (wires st.world.memory st.world.sending);
          same_sent = a.same_sent ∙ p.same_sent;
        },
      )
