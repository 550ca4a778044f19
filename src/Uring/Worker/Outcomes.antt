-- ===== src/Uring/Worker/Outcomes.antt =====
-- What the switch of `worker` does to each kind of completion.
use urn.Prelude.{
  none, sym, ℕ, ◌%◌, ◌^◌, ◌≤◌, ◌≡◌, inl, inr, refl, ap, ◌∙◌, true, List, [], ◌∷◌, ◌++◌, arith, ◌==◌,
  length, Option-cases, Address,
}
use urn.Relay.Statistics.{Doubles}
use urn.Relay.Logic.Reports.{
  on_session_sent-counted, zeroed, threads-zeroed, on_statistics_tick-zeroed,
}
use urn.Relay.Logic.{restart_peer, Relay, Tls, count_in, count_out}
use urn.Relay.Logic.Counters.{IsReadable, counted, length-modify}
use urn.Relay.Logic.Registration.{grant}
use urn.Relay.Logic.Forwarding.{addressee, on_peer_received-deliver}
use urn.Uring.Context.{
  Session, RingEventType, client_rx, peer_rx, peer_tx, timer, Sqe, memory_per_packet,
  k_statistics_timeout_ms,
}
use urn.Uring.Events.{iov_base, address_of, release_event}
use urn.Uring.Events.Pool.{complete, release_event-Owned}
use urn.Uring.Worker.{
  St, Res, done, uring, to_uint32, check_res, packet_at, endpoint_at, on_cqe, on_peer_rx,
  on_peer_tx, on_client_rx, on_timer, dispatch,
}
use urn.Uring.Worker.Rearm.{add_timeout-Rearmed}
use urn.Relay.Sessions.{find}
use urn.Relay.Sessions.Laws.{or_else}
use urn.Relay.Logic.Routing.{table_of, addressee-named}
use urn.Relay.Logic.Quiet.{none_after, asked, on_client_received-Registers}
use urn.Uring.Events.Sends.{sends}
use urn.Uring.Worker.Invariant.{
  Settled-room, WorkerInv, Taken, Completion, received, receive_failed, sent, expired, Fits, res_of,
  kernel_writes, completed, completed-Taken,
}
use urn.Uring.Worker.Handled.{to_client, Ends, relay-Taken, Rearmed-WorkerInv, rearm_after, forward}

-- The sessions are the relay's, whose members are as before but for counters.
kept_table :
    (st st' : St)
    → st'.relay.sessions ≡ st.relay.sessions
    → (id : ℕ) → table_of st' id ≡ or_else (table_of st id) none
kept_table st st' kept id = ap (find id) kept ∙ none_after (table_of st id)

module _ {tls : Tls} {i : ℕ} where
  module _ (d : Doubles) where
    on_peer_tx-Ends :
        (ev : ℕ) (res : Res) (st : St)
        → Taken tls i peer_tx ev st
        → Ends tls i peer_tx ev (sent res) st (on_peer_tx d tls ev res st)
    unfolding on_peer_tx restart_peer release_event
    on_peer_tx-Ends ev res st t =
        let p = packet_at ev (to_uint32 res) st.world in
        let s = t.settled in
        inl (
          record (counted i (count_out p) st) { world = release_event ev st.world },
          rw (on_session_sent-counted uring i p st t.started) refl,
          record {
            inv = record {
              started = rw (length-modify i (count_out p) st.relay.per_thread_statistics) t.started;
              settled = record {
                owned = release_event-Owned st.world ev [] s.owned t.own;
                one_client = s.one_client;
                one_peer = s.one_peer;
                main_timer = s.main_timer;
                no_invalid = s.no_invalid;
                queued = s.queued;
                files = s.files;
                on_files = s.on_files;
              };
            };
            sending = refl;
            table = λ id. none_after (table_of st id);
          },
        )

    on_timer-Ends :
        (ev : ℕ) (st : St)
        → Taken tls i timer ev st
        → Ends tls i timer ev expired st (on_timer d tls ev st)
    unfolding on_timer
    on_timer-Ends ev st t =
        let (r, e) = on_statistics_tick-zeroed d 5 st (omega arith) in
        let t' = relay-Taken (zeroed st) t refl (threads-zeroed st) in
        let (io', run, a) =
          add_timeout-Rearmed t'.settled.owned k_statistics_timeout_ms t'.own t'.typed
            (Settled-room t'.settled) in
        inl (
          record (zeroed st) { world = io' },
          rw (e, run) refl,
          record {
            inv = Rearmed-WorkerInv io' refl t' a;
            sending = a.same_sends refl;
            table = λ id. none_after (table_of st id);
          },
        )

    on_client_rx-Ends :
        (ev : ℕ) (bytes : List ℕ) (from : Address) (st : St)
        → Taken tls i client_rx ev st
        → st.world.messages_buffer (iov_base (st.world.io_events ev).body) ≡ bytes
        → address_of (st.world.io_events ev).body ≡ from
        → Ends tls i client_rx ev
            (received bytes from)
            st
            (on_client_rx d tls ev (done (length bytes)) st)
    unfolding on_client_rx check_res packet_at endpoint_at
    on_client_rx-Ends ev bytes from st t there who =
        let src = endpoint_at ev st.world in
        let p = packet_at ev (length bytes) st.world in
        let (st₁, run, reg) =
          on_client_received-Registers uring i src p bytes st (λ w. refl) (λ w. refl) t.started refl
            there in
        let t₁ = relay-Taken st₁ t reg.same_world reg.same_threads in
        let (st', run', inv, same, kept) =
          rearm_after client_rx ev st.world.client_socket st₁ refl (refl, t.settled.files.0) t₁ in
        let from_there : src ≡ record { address = from; user_data = st.world.thread_index } =
          rw who refl in
        inl (
          st',
          rw run run',
          record {
            inv = inv;
            sending = same ∙ ap sends reg.same_world;
            table = λ id.
                ap (λ (r : Relay Session). find id r.sessions) kept
                ∙ reg.table id
                ∙ ap (λ e. or_else (table_of st id) (grant uring e (asked bytes) id)) from_there;
          },
        )

    on_peer_rx-Ends :
        (ev : ℕ) (bytes : List ℕ) (from : Address) (st : St)
        → Taken tls i peer_rx ev st
        → length bytes ≤ memory_per_packet
        → st.world.messages_buffer (iov_base (st.world.io_events ev).body) ≡ bytes
        → Ends tls i peer_rx ev
            (received bytes from)
            st
            (on_peer_rx d tls ev (done (length bytes)) st)
    unfolding on_peer_rx check_res packet_at restart_peer
    on_peer_rx-Ends ev bytes from st t fits there =
        let p = packet_at ev (length bytes % 2 ^ 32) st.world in
        let len : p.length ≡ length bytes = omega arith in
        let readable : IsReadable p = rw there (omega arith) in
        let st₁ = counted i (count_in p) st in
        let t₁ =
          relay-Taken st₁ t refl (length-modify i (count_in p) st.relay.per_thread_statistics) in
        let run =
          on_peer_received-deliver uring i (endpoint_at ev st.world) p st t.started readable in
        let to = addressee-named p bytes st len there in
        elim (Option-cases (addressee p st)) [
          | inl e ↦
              let (st', run', inv, same, kept) =
                rearm_after peer_rx ev st.world.peer_socket st₁ refl (refl, t.settled.files.1) t₁ in
              inl (
                st',
                rw (run, e) run',
                record {
                  inv = inv;
                  sending = same ∙ ap (λ o. to_client o bytes ++ sends st.world) (sym e ∙ to);
                  table = kept_table st st' (ap (λ (r : Relay Session). r.sessions) kept);
                },
              )
          | inr (x, e) ↦
              elim (forward ev x p bytes st₁ st.world.free_event_ids refl len there fits t₁) [
                | inl (st₂, run₂, t₂, more, kept₂) ↦
                    let (st', run', inv, same, kept) =
                      rearm_after peer_rx ev st.world.peer_socket st₂ refl (refl, t.settled.files.1)
                        t₂ in
                    inl (
                      st',
                      rw (run, e, run₂) run',
                      record {
                        inv = inv;
                        sending =
                            same
                            ∙ more
                            ∙ ap (λ o. to_client o bytes ++ sends st.world) (sym e ∙ to);
                        table =
                            kept_table st st'
                              (ap (λ (r : Relay Session). r.sessions) (kept ∙ kept₂));
                      },
                    )
                | inr (bad, none_left) ↦ inr (rw (run, e, bad) refl, inr (refl, none_left, (x, e)))
              ]
        ]

    Taken-Ends :
        (kind : RingEventType) (ev : ℕ) (c : Completion) (st : St)
        → Taken tls i kind ev (record st { world = kernel_writes ev c st.world })
        → Fits kind c
        → Ends tls i kind ev c
            (record st { world = kernel_writes ev c st.world })
            (dispatch d tls kind ev (res_of c) (record st { world = kernel_writes ev c st.world }))
    unfolding dispatch on_client_rx on_peer_rx check_res
    Taken-Ends client_rx ev (received bytes from) st t f =
        let self : (ev == ev) ≡ true = ground arith in
        on_client_rx-Ends ev bytes from _ t (rw self (ground arith)) (rw self refl)
    Taken-Ends client_rx ev (receive_failed errno) st t f = inr (refl, inl (errno, refl))
    Taken-Ends peer_rx ev (received bytes from) st t f =
        let self : (ev == ev) ≡ true = ground arith in
        on_peer_rx-Ends ev bytes from _ t f (rw self (ground arith))
    Taken-Ends peer_rx ev (receive_failed errno) st t f = inr (refl, inl (errno, refl))
    Taken-Ends peer_tx ev (sent res) st t f = on_peer_tx-Ends ev res st t
    Taken-Ends timer ev expired st t f = on_timer-Ends ev st t
    Taken-Ends _ ev c st t f = elim f [ ]

    pub on_cqe-Ends :
        (st : St) (xs : List Sqe) (q : Sqe) (ys : List Sqe) (c : Completion)
        → WorkerInv tls i st
        → st.world.ring ≡ xs ++ (q ∷ ys)
        → st.world.unsubmitted ≤ length xs
        → Fits (st.world.io_events q.event).kind c
        → let st₁ = completed xs q ys c st in
          Ends tls i
            (st.world.io_events q.event).kind
            q.event
            c
            st₁
            (on_cqe d tls q.event (res_of c) st₁)
    unfolding on_cqe
    on_cqe-Ends st xs q ys c inv e s f =
        let t = completed-Taken xs q ys c inv e s in
        rw t.typed (
          Taken-Ends (st.world.io_events q.event).kind q.event c
            (record st { world = complete xs ys st.world }) t f)
