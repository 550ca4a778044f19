-- ===== src/Relay/Logic/History/Table.antt =====
-- The session table after any history of calls.
use urn.Prelude.{
  ℕ, suc, length-replicate, ◌≡◌, ◌<◌, refl, sym, ap, ◌∙◌, inl, inr, Bool, List, [], ◌∷◌, Option,
  none, some, ok, >>=-eq-ok, arith, map, length,
}
use urn.Relay.Packet.{Packet}
use urn.Relay.Statistics.{Doubles, Statistics, no_statistics}
use urn.Relay.Rate.Laws.{print_statistics-reset}
use urn.Relay.Sessions.{find}
use urn.Relay.Sessions.Laws.{or_else}
use urn.Relay.Logic.{
  Tls, State, Library, count_in, count_out, find_session, on_peer_received, on_session_sent,
  on_statistics_tick, restart_peer,
}
use urn.Relay.Logic.Counters.{
  IsStarted, IsReadable, counted, length-modify, threads, update_this_thread-counted,
}
use urn.Relay.Logic.Registration.{requested, grant, on_client_received-Registered}
use urn.Relay.Logic.Forwarding.{addressee, deliver_cases, on_peer_received-deliver}
use urn.Relay.Logic.History.{
  Event, client_received, peer_received, session_sent, statistics_tick, IsProper, AllProper,
  SendLaws, handle, run, received,
}

or_else_assoc : {A : Type 0} (a b c : Option A) → or_else (or_else a b) c ≡ or_else a (or_else b c)
or_else_assoc none b c = refl
or_else_assoc (some x) b c = refl

or_else-none : {A : Type 0} (a : Option A) → or_else a none ≡ a
or_else-none none = refl
or_else-none (some x) = refl

length-map : (xs : List Statistics) → length (map (λ s. s.ingress) xs) ≡ length xs
length-map [] = refl
length-map (x ∷ xs) = ap suc (length-map xs)

module _ {Endpoint Session World : Type 0} (lib : Library Endpoint Session World)
    (d : Doubles) where
  -- What one call may add to the table.
  unfoldable pub asked : Event Endpoint → ℕ → Option Session
  asked (client_received tls src p) j = grant lib src (requested p) j
  asked _ j = none

  -- The first request for an identifier in a history.
  unfoldable pub first_asked : List (Event Endpoint) → ℕ → Option Session
  first_asked [] j = none
  first_asked (e ∷ es) j = or_else (asked e j) (first_asked es j)

  record Effect (e : Event Endpoint) (st st' : State Session World) : Type 0 where
    table : (j : ℕ) → find_session j st' ≡ or_else (find_session j st) (asked e j)
    same_threads : threads st' ≡ threads st

  unchanged :
      (e : Event Endpoint) (st st' : State Session World)
      → ((j : ℕ) → asked e j ≡ none)
      → st'.relay.sessions ≡ st.relay.sessions
      → threads st' ≡ threads st
      → Effect e st st'
  unfolding find_session
  unchanged e st st' silent same n = record {
    table = λ j. rw (silent j, or_else-none) (ap (find j) same);
    same_threads = n;
  }

  on_session_sent-Effect :
      (tls : Tls) (i : ℕ) (p : Packet) (st st' : State Session World)
      → IsStarted i (threads st) tls
      → on_session_sent lib tls p st ≡ ok st'
      → Effect (session_sent tls p) st st'
  unfolding on_session_sent asked restart_peer
  on_session_sent-Effect tls i p st st' s h =
      let e = update_this_thread-counted i (count_out p) st s in
      unchanged _ st st' (λ j. refl) (ground (arith, e))
        (ground (arith, e, length-modify i (count_out p) st.relay.per_thread_statistics))

  on_statistics_tick-Effect :
      (interval : ℕ) (st st' : State Session World)
      → 0 < interval
      → handle lib d (statistics_tick interval) st ≡ ok st'
      → Effect (statistics_tick interval) st st'
  unfolding handle on_statistics_tick asked
  on_statistics_tick-Effect interval st st' pos h =
      let (r, e) = print_statistics-reset d st.relay.per_thread_statistics interval (omega arith) in
      unchanged _ st st' (λ j. refl) (ground (arith, e))
        (ground (arith, e, length-replicate (threads st) no_statistics))

  module _ (laws : SendLaws lib) where
    threads_of_received :
        (st st' : State Session World) → received st' ≡ received st → threads st' ≡ threads st
    threads_of_received st st' e = omega (
      arith,
      ap length e,
      length-map st.relay.per_thread_statistics,
      length-map st'.relay.per_thread_statistics,
    )

    on_peer_received-Effect :
        (tls : Tls) (i : ℕ) (src : Endpoint) (p : Packet) (st st' : State Session World) (b : Bool)
        → IsStarted i (threads st) tls
        → IsReadable p
        → on_peer_received lib tls src p st ≡ ok (b, st')
        → Effect (peer_received tls src p) st st'
    unfolding asked restart_peer
    on_peer_received-Effect tls i src p st st' b s r h =
        let n = length-modify i (count_in p) st.relay.per_thread_statistics in
        elim (deliver_cases lib (λ x. lib.start_send tls x p) (addressee p st)
          (sym (on_peer_received-deliver lib i src p st s r) ∙ h)) [
            | inl (_, _, e) ↦ unchanged _ st st' (λ j. refl) (ground arith) (ground (arith, n))
            | inr (x, _, _, sent) ↦
                unchanged _ st st' (λ j. refl)
                  (laws.keeps_sessions tls x p (counted i (count_in p) st) st' sent)
                  (threads_of_received (counted i (count_in p) st) st'
                      (laws.keeps_received tls x p (counted i (count_in p) st) st' sent)
                    ∙ n)
          ]

    handle-Effect :
        (e : Event Endpoint) (st st' : State Session World)
        → IsProper (threads st) e
        → handle lib d e st ≡ ok st'
        → Effect e st st'
    unfolding handle asked
    handle-Effect (client_received tls src p) st st' ((i, s), r) h =
        let (st₁, run₁, reg) = on_client_received-Registered lib i src p st s r in
        let same : st₁ ≡ st' = ground arith in
        let n = length-modify i (count_in p) st.relay.per_thread_statistics in
        record {
          table = λ j. rw (← same) (reg.table j);
          same_threads = rw (← same) (ap length reg.counters ∙ n);
        }
    handle-Effect (peer_received tls src p) st st' ((i, s), r) h =
        let ((b, st₁), q, e) = >>=-eq-ok (on_peer_received lib tls src p st) _ h in
        on_peer_received-Effect tls i src p st st' b s r (ground arith)
    handle-Effect (session_sent tls p) st st' (i, s) h = on_session_sent-Effect tls i p st st' s h
    handle-Effect (statistics_tick interval) st st' pos h =
        on_statistics_tick-Effect interval st st' pos h

    pub handle-threads :
        (e : Event Endpoint) (st st' : State Session World)
        → IsProper (threads st) e
        → handle lib d e st ≡ ok st'
        → threads st' ≡ threads st
    handle-threads e st st' v h = (handle-Effect e st st' v h).same_threads

    pub run-threads :
        (es : List (Event Endpoint)) (st st' : State Session World)
        → AllProper (threads st) es
        → run lib d es st ≡ ok st'
        → threads st' ≡ threads st
    unfolding run
    run-threads [] st st' v h = ground arith
    run-threads (e ∷ es) st st' (v, vs) h =
        let (st₁, h₁, h₂) = >>=-eq-ok (handle lib d e st) (run lib d es) h in
        let n = handle-threads e st st₁ v h₁ in run-threads es st₁ st' (rw n vs) h₂ ∙ n

    -- Over a library whose sends keep the session map and the receive counters: after any history of
    -- calls that returned, on any threads and with any mix of client, peer, sent and statistics
    -- calls, an identifier has the session that it had before, or else the session of
    -- the first client packet in the history that asked for it, or else none.
    pub run-first_asked :
        (es : List (Event Endpoint)) (st st' : State Session World)
        → AllProper (threads st) es
        → run lib d es st ≡ ok st'
        → (j : ℕ) → find_session j st' ≡ or_else (find_session j st) (first_asked es j)
    unfolding run first_asked
    run-first_asked [] st st' v h j = rw or_else-none (ground arith)
    run-first_asked (e ∷ es) st st' (v, vs) h j =
        let (st₁, h₁, h₂) = >>=-eq-ok (handle lib d e st) (run lib d es) h in
        let eff = handle-Effect e st st₁ v h₁ in
        run-first_asked es st₁ st' (rw eff.same_threads vs) h₂ j
        ∙ rw (eff.table j) (or_else_assoc (find_session j st) (asked e j) (first_asked es j))
