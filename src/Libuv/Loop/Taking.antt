-- ===== src/Libuv/Loop/Taking.antt =====
-- libuv/relay.cpp: one datagram of a read from the peers' socket.
use urn.Prelude.{
  take_all, ℕ, suc, ◌/◌, ◌<◌, ◌≤◌, ◌≡◌, refl, sym, ◌∙◌, Bool, true, false, List, [], ◌∷◌, Option,
  none, some, Option-cases, ok, arith, ltb, length, Bool-cases, inl, inr, Address, Datagram,
}
use mathlib.Core.List.{append-nil}
use urn.IntrusiveStack.{Ptr}
use urn.Relay.Logic.{Tls, Relay, count_in, restart_peer}
use urn.Relay.Logic.Counters.{IsReadable, threads, counted, length-modify}
use urn.Relay.Logic.Forwarding.{addressee, on_peer_received-deliver}
use urn.Relay.Logic.Routing.{named, table_of, addressee-named}
use urn.Libuv.Buffers.{Session, Send, Thread, data_size, chunks_size}
use urn.Libuv.Thread.{St, UdpSend, libuv, packet_at, take_peer_packet}
use urn.Libuv.Loop.Sending.{start_send-Started}
use urn.Libuv.Loop.Reading.{wires, wires-append, Reading, Passes, AllIntact-raise, to_client}

named-nothing :
    (table : ℕ → Option Session) (bytes : List ℕ) → length bytes ≡ 0 → named table bytes ≡ none
unfolding named
named-nothing table [] h = refl
named-nothing table (x ∷ xs) h = absurd (omega (arith, h))

-- What the handling of one datagram comes to.
pub record Taken (out : List Datagram) (i : ℕ) (tls : Tls) (b limit : ℕ) (free : List Ptr)
    (reused : Bool) (st st' : St) : Type 0 where
  pub reading : Reading i tls b limit free st'
  pub passes : Passes out st st'
  pub one_more : (st'.world.bufs b).ref_count ≤ suc (st.world.bufs b).ref_count
  pub busy : reused ≡ true → 0 < (st'.world.bufs b).ref_count

-- Nothing is sent, whatever is counted.
nothing-Taken :
    {tls : Tls} (i b limit limit' : ℕ) (free : List Ptr) (st : St) (r : Relay Session)
    → limit ≤ limit'
    → Reading i tls b limit free st
    → r.sessions ≡ st.relay.sessions
    → length r.per_thread_statistics ≡ threads st
    → Taken [] i tls b limit' free false st (record st { relay = r })
nothing-Taken i b limit limit' free st r le h sessions same = record {
  reading = record {
    started = rw same h.started;
    owned = h.owned;
    intact = AllIntact-raise b limit limit' st.world st.world.sending le h.intact;
    nonnull = h.nonnull;
    last = h.last;
  };
  passes = record {
    wired = sym (append-nil (wires st.world.memory st.world.sending));
    sessions = sessions;
    same_sent = refl;
  };
  one_more = omega arith;
  busy = λ e. absurd (cc);
}

module _ (udp_send : UdpSend) (accepts : (t : Thread) (s : Send) → udp_send t s ≡ true) where
  sent-Taken :
      {tls : Tls} (i b limit limit' : ℕ) (free : List Ptr) (bytes : List ℕ) (x : Session) (st : St)
      → limit / data_size ≡ b
      → limit < limit'
      → (st.world.bufs b).ref_count < chunks_size
      → Reading i tls b limit free st
      → st.world.memory limit ≡ bytes
      → let p = packet_at limit (length bytes) st.world in
        (st' : St) × ((libuv udp_send).start_send tls x p (counted i (count_in p) st) ≡ ok st')
        × Taken (to_client (some x) bytes) i tls b limit' free true st st'
  unfolding packet_at
  sent-Taken {tls = tls} i b limit limit' free bytes x st home below room r mem =
      let p = packet_at limit (length bytes) st.world in
      let (t', run, s) =
        start_send-Started udp_send x p b limit limit' free st.world accepts r.owned r.intact
          r.nonnull r.last room home below (omega arith) in
      let st' : St = record (counted i (count_in p) st) { world = t' } in
      (
        st',
        rw run refl,
        record {
          reading = record {
            started = rw (length-modify i (count_in p) st.relay.per_thread_statistics) r.started;
            owned = s.owned;
            intact = s.intact;
            nonnull = r.nonnull;
            last = s.last ∙ r.last;
          };
          passes = record {
            wired =
                rw (s.sending, s.memory)
                  (wires-append st.world.memory st.world.sending _ ∙ rw (mem, take_all bytes) refl);
            sessions = refl;
            same_sent = s.out;
          };
          one_more = omega (arith, s.one_more);
          busy = λ _. omega (arith, s.one_more);
        },
      )

  -- A datagram of `n` bytes at `limit`: it goes to the client of the session that it names.
  pub take_peer_packet-Taken :
      {tls : Tls} (i b limit limit' : ℕ) (free : List Ptr) (src : Address) (bytes : List ℕ)
      (st : St)
      → limit / data_size ≡ b
      → limit < limit'
      → (st.world.bufs b).ref_count < chunks_size
      → Reading i tls b limit free st
      → st.world.memory limit ≡ bytes
      → (reused : Bool) × (st' : St) × (take_peer_packet udp_send tls (length bytes) limit src st
          ≡ ok (reused, st'))
        × Taken (to_client (named (table_of st) bytes) bytes) i tls b limit' free reused st st'
  unfolding take_peer_packet restart_peer
  take_peer_packet-Taken {tls = tls} i b limit limit' free src bytes st home below room r mem =
      elim (Bool-cases (ltb 0 (length bytes))) [
        | inr empty ↦ (
          false,
          st,
          rw empty refl,
          rw (named-nothing (table_of st) bytes (ground arith))
              (nothing-Taken i b limit limit' free st st.relay (omega arith) r refl refl),
        )
        | inl some_bytes ↦
            let p = packet_at limit (length bytes) st.world in
            let readable : IsReadable p = unfold packet_at in rw mem (omega arith) in
            let who : addressee p st ≡ named (table_of st) bytes =
              addressee-named p bytes st (unfold packet_at in refl) (unfold packet_at in mem) in
            let run = on_peer_received-deliver (libuv udp_send) i src p st r.started readable in
            elim (Option-cases (named (table_of st) bytes)) [
              | inl e ↦ (
                false,
                counted i (count_in p) st,
                rw some_bytes (run ∙ rw (who, e) refl),
                rw e (
                    nothing-Taken i b limit limit' free st (counted i (count_in p) st).relay
                      (omega arith) r refl
                      (length-modify i (count_in p) st.relay.per_thread_statistics)),
              )
              | inr (x, e) ↦
                  let (st', sent, taken) =
                    sent-Taken i b limit limit' free bytes x st home below room r mem in
                  (true, st', rw some_bytes (run ∙ rw (who, e, sent) refl), rw e taken)
            ]
      ]
