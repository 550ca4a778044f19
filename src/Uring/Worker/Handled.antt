-- ===== src/Uring/Worker/Handled.antt =====
-- What a completion comes to, and what the cases of the switch of `worker` share.
use urn.Prelude.{
  Option, none, Datagram, false, ℕ, ◌%◌, ◌^◌, ◌≤◌, ◌≡◌, ◌≢◌, ◌∙◌, ◌⊎◌, inl, inr, refl, ap, true,
  List, [], ◌∷◌, ◌++◌, some, arith, ◌==◌, length, Outcome, ok, fault, abort, count,
}
use urn.Relay.Packet.{Packet}
use urn.Relay.Logic.{Tls}
use urn.Relay.Logic.Counters.{IsReadable, threads}
use urn.Relay.Logic.Registration.{grant}
use urn.Relay.Logic.Forwarding.{addressee}
use urn.Uring.Context.{
  Context, Session, RingEventType, invalid, client_rx, peer_rx, peer_tx, timer, Sqe, Opcode,
  recvmsg, memory_per_packet,
}
use urn.Uring.Events.Owned.{same_kind, Owned, count_ring, IsFor, AllFor-frame}
use urn.Uring.Events.Pool.{free-not-ring}
use urn.Uring.Worker.{in_world, St, uring, packet_at, rearm}
use urn.Uring.Worker.Sending.{Sent, start_send-Sent, start_send-exhausted}
use urn.Uring.Worker.Rearm.{Rearmed, rearm-Rearmed}
use urn.Relay.Sessions.Laws.{or_else}
use urn.Relay.Logic.Routing.{named, table_of}
use urn.Relay.Logic.Quiet.{asked}
use urn.Uring.Events.Sends.{sends}
use urn.Uring.Worker.Flight.{Sent-sends}
use urn.Uring.Worker.Invariant.{
  Settled-room, WorkerInv, Taken, Completion, received, receive_failed,
}

-- The packet that the relay is given for a received datagram.
abbrev pub datagram_at : ℕ → Completion → St → Packet
datagram_at ev (received bytes from) st = packet_at ev (length bytes % 2 ^ 32) st.world
datagram_at ev c st = packet_at ev 0 st.world

-- The only reasons to abort: a receive failed, or a datagram is to be forwarded and every event is in
-- use.
abbrev pub IsFatal : RingEventType → ℕ → Completion → St → Type 0
IsFatal kind ev c st =
    ((errno : ℕ) × (c ≡ receive_failed errno))
    ⊎ ((kind ≡ peer_rx)
        × (st.world.free_event_ids ≡ [])
        × ((x : Session) × (addressee (datagram_at ev c st) st ≡ some x)))

-- The datagrams that a completion gives the worker to send on, for some sessions.
abbrev pub to_client : Option Session → List ℕ → List Datagram
to_client none bytes = []
to_client (some x) bytes = record { address = x.client_endpoint.address; bytes = bytes } ∷ []

abbrev pub onward : RingEventType → Completion → (ℕ → Option Session) → List Datagram
onward peer_rx (received bytes from) table = to_client (named table bytes) bytes
onward _ c table = []

-- The sessions that it grants.
abbrev pub granted : RingEventType → Completion → St → ℕ → Option Session
granted client_rx (received bytes from) st =
    grant uring (record { address = from; user_data = st.world.thread_index }) (asked bytes)
granted _ c st = λ id. none

-- What a call for a completion has done.
pub record Handled (tls : Tls) (i : ℕ) (kind : RingEventType) (c : Completion) (st st' : St)
    : Type 0 where
  pub inv : WorkerInv tls i st'
  pub sending : sends st'.world ≡ onward kind c (table_of st) ++ sends st.world
  pub table : (id : ℕ) → table_of st' id ≡ or_else (table_of st id) (granted kind c st id)

-- A call goes well and keeps the invariant, or aborts for one of these reasons.
abbrev pub Ends : Tls → ℕ → RingEventType → ℕ → Completion → St → Outcome St → Type 0
Ends tls i kind ev c st r =
    ((st' : St) × (r ≡ ok st') × Handled tls i kind c st st')
    ⊎ ((r ≡ fault abort) × IsFatal kind ev c st)

free_ne :
    {io : Context} {ev : ℕ} (id : ℕ) (rest : List ℕ)
    → Owned io (ev ∷ [])
    → io.free_event_ids ≡ id ∷ rest
    → id ≢ ev
free_ne {io} {ev} id rest o e same =
    let self : (id == id) ≡ true = ground arith in
    let there : (id == ev) ≡ true = ground arith in ground (arith, o.once id, ap (count id) e)

module _ {tls : Tls} {i : ℕ} where
  -- The relay's own call changed no event.
  pub relay-Taken :
      {kind : RingEventType} {ev : ℕ} {st : St} (st' : St)
      → Taken tls i kind ev st
      → st'.world ≡ st.world
      → threads st' ≡ threads st
      → Taken tls i kind ev st'
  relay-Taken st' t same n = record {
    started = rw n t.started;
    settled = rw same t.settled;
    own = rw same t.own;
    typed = rw same t.typed;
  }

  pub Rearmed-WorkerInv :
      {kind : RingEventType} {op : Opcode} {socket_id ev : ℕ} {st : St} (io' : Context)
      → IsFor kind op socket_id
      → Taken tls i kind ev st
      → Rearmed kind op socket_id st.world [] io'
      → WorkerInv tls i (record st { world = io' })
  Rearmed-WorkerInv io' place t r =
      let s = t.settled in
      record {
        started = t.started;
        settled = record {
          owned = r.owned;
          one_client = omega (arith, s.one_client, r.counts client_rx);
          one_peer = omega (arith, s.one_peer, r.counts peer_rx);
          main_timer = rw r.same_worker.0 (omega (arith, s.main_timer, r.counts timer));
          no_invalid = omega (arith, s.no_invalid, r.counts invalid);
          queued = omega (arith, s.queued, r.queued);
          files = (r.same_worker.1 ∙ s.files.0, r.same_worker.2 ∙ s.files.1);
          on_files = r.on_files place s.on_files;
        };
      }

  pub Sent-Taken :
      {kind : RingEventType} {ev : ℕ} {st : St} (io' : Context) (x : Session) (p : Packet) (id : ℕ)
      → id ≢ ev
      → count_ring id st.world.ring ≡ 0
      → Taken tls i kind ev st
      → Sent x p st.world (ev ∷ []) id io'
      → Taken tls i kind ev (record st { world = io' })
  Sent-Taken {ev} {st} io' x p id ne out t r =
      let s = t.settled in
      let same : io'.io_events ev ≡ st.world.io_events ev = ground (arith, r.events ev) in
      record {
        started = t.started;
        settled = record {
          owned = r.owned;
          one_client = omega (arith, s.one_client, r.counts client_rx);
          one_peer = omega (arith, s.one_peer, r.counts peer_rx);
          main_timer = rw r.same_worker.0 (omega (arith, s.main_timer, r.counts timer));
          no_invalid = omega (arith, s.no_invalid, r.counts invalid);
          queued = omega (arith, s.queued, r.queued, ap (length {A = Sqe}) r.entry);
          files = (r.same_worker.1 ∙ s.files.0, r.same_worker.2 ∙ s.files.1);
          on_files =
              let self : (id == id) ≡ true = ground arith in
              rw (r.entry, r.events id, self)
                (
                  (refl, s.files.0),
                  AllFor-frame id st.world.io_events io'.io_events st.world.ring out
                      (λ a ne'. ground (arith, r.events a)) s.on_files,
                );
        };
        own = rw same t.own;
        typed = rw same t.typed;
      }

  -- What follows the relay's call when a receive completes.
  pub rearm_after :
      (kind : RingEventType) (ev socket_id : ℕ) (st : St)
      → same_kind peer_tx kind ≡ false
      → IsFor kind recvmsg socket_id
      → Taken tls i kind ev st
      → (st' : St) × (in_world (rearm ev kind socket_id) st ≡ ok st')
        × WorkerInv tls i st'
        × (sends st'.world ≡ sends st.world)
        × (st'.relay ≡ st.relay)
  rearm_after kind ev socket_id st other place t =
      let (io', run, a) =
        rearm-Rearmed t.settled.owned kind socket_id t.own (Settled-room t.settled) in
      (
        record st { world = io' },
        rw run refl,
        Rearmed-WorkerInv io' place t a,
        a.same_sends other,
        refl,
      )

  -- The relay's call for a peer's datagram: it returns, or there is no event for the send.
  pub forward :
      (ev : ℕ) (x : Session) (p : Packet) (bytes : List ℕ) (st : St) (free : List ℕ)
      → st.world.free_event_ids ≡ free
      → p.length ≡ length bytes
      → p.content ≡ bytes
      → length bytes ≤ memory_per_packet
      → Taken tls i peer_rx ev st
      → ((st' : St) × (uring.start_send tls x p st ≡ ok st')
          × Taken tls i peer_rx ev st'
          × (sends st'.world ≡ to_client (some x) bytes ++ sends st.world)
          × (st'.relay ≡ st.relay))
        ⊎ ((uring.start_send tls x p st ≡ fault abort) × (st.world.free_event_ids ≡ []))
  forward ev x p bytes st [] e len content fits t =
      inr (rw (start_send-exhausted t.settled.owned x p e) refl, e)
  forward ev x p bytes st (id ∷ rest) e len content fits t =
      let readable : IsReadable p = rw (len, content) (omega arith) in
      let small : p.length ≤ memory_per_packet = rw len fits in
      let (io', run, r) =
        start_send-Sent t.settled.owned x p id rest e (Settled-room t.settled) readable small in
      inl (
        record st { world = io' },
        rw run refl,
        Sent-Taken io' x p id (free_ne id rest t.settled.owned e)
            (free-not-ring t.settled.owned id rest e) t r,
        Sent-sends x p id bytes t.settled.owned (free-not-ring t.settled.owned id rest e) len
            content r,
        refl,
      )
