-- ===== src/Uring/Worker/Exit.antt =====
-- uring/relay.cpp: a worker from its start to the end of its loop.
use urn.Prelude.{
  ℕ, ◌≤◌, ◌≡◌, ◌⊎◌, inl, inr, refl, Bool, true, false, List, [], ◌∷◌, ◌++◌, arith, length, Outcome,
  ok, fault, abort, Datagram,
}
use urn.Relay.Statistics.{Doubles}
use urn.Relay.Logic.{Tls, Relay}
use urn.Relay.Logic.Counters.{IsStarted, threads}
use urn.Relay.Logic.Routing.{table_of}
use urn.Uring.Context.{Context, Session, peer_tx, listen_context_initialize}
use urn.Uring.Events.Pool.{kinds}
use urn.Uring.Worker.{St, start_receives}
use urn.Uring.Worker.Invariant.{Fits, completed}
use urn.Uring.Worker.Handled.{IsFatal, onward}
use urn.Uring.Worker.Outcomes.{on_cqe-Ends}
use urn.Uring.Worker.System.{max_sends, WorkerInv-sends}
use urn.Uring.Worker.Flow.{
  ended, Flow, begins, accepts, handles, other_threads, Carries, Flow-Carries,
}
use urn.Uring.Worker.Loop.{Cqe, Pass, submit_and_wait, take_cqe, for_each_cqe, worker_loop}

-- What holds of the state, if a call returns.
abbrev pub After : (St → Type 0) → Outcome St → Type 0
After P (ok st) = P st
After P (fault why) = Unit {0}

-- The same for a value, which stays the same if the call does not return.
abbrev pub and_then : {A : Type 0} → (St → A) → A → Outcome St → A
and_then f a (ok st) = f st
and_then f a (fault why) = a

-- The datagrams that a worker has had to send on, and those whose sends have completed, each the
-- latest first.
pub record Log : Type 0 where
  pub onwards : List Datagram
  pub completes : List Datagram

abbrev pub no_log : Log
no_log = record { onwards = []; completes = [] }

-- What a completion adds.
abbrev pub logged : Cqe → St → Log → Log
logged c st log = record {
  onwards = onward (st.world.io_events c.sqe.event).kind c.completion (table_of st) ++ log.onwards;
  completes = ended c.sqe st ++ log.completes;
}

-- The kernel completes an entry of the ring that it had accepted, in a way that fits the entry.
pub record Completes (c : Cqe) (st : St) : Type 0 where
  pub in_ring : st.world.ring ≡ c.before ++ (c.sqe ∷ c.after)
  pub accepted : st.world.unsubmitted ≤ length c.before
  pub fits : Fits (st.world.io_events c.sqe.event).kind c.completion

-- A pass that no SIGINT ends.
abbrev pub GoesOn : List Pass → Type 0
GoesOn [] = Unit {0}
GoesOn (pass ∷ rest) = (pass.has_sigint ≡ false) × GoesOn rest

module _ (d : Doubles) (tls : Tls) where
  abbrev pub Fills : List Cqe → St → Type 0
  Fills [] st = Unit {0}
  Fills (c ∷ cs) st = Completes c st × After (λ st'. Fills cs st') (take_cqe d tls c st)

  -- The kernel fills the completion queue in this way in each pass, and the other threads keep the
  -- number of the counters.
  abbrev pub Served : List Pass → St → Type 0
  Served [] st = Unit {0}
  Served (pass ∷ rest) st =
      (length (pass.other_threads st.relay).per_thread_statistics ≡ threads st)
      × Fills pass.cqes (submit_and_wait pass st)
      × After (λ st'. Served rest st') (for_each_cqe d tls pass.cqes (submit_and_wait pass st))

  -- The run over these completions aborts at one that the code does not survive.
  pub data AbortsAt : List Cqe → St → Type 0 where
    at_once :
        (c : Cqe) (cs : List Cqe) (st : St)
        → take_cqe d tls c st ≡ fault abort
        → IsFatal
            (st.world.io_events c.sqe.event).kind
            c.sqe.event
            c.completion
            (completed c.before c.sqe c.after c.completion st)
        → AbortsAt (c ∷ cs) st
    behind :
        (c : Cqe) (cs : List Cqe) (st st' : St)
        → take_cqe d tls c st ≡ ok st'
        → AbortsAt cs st'
        → AbortsAt (c ∷ cs) st

  -- The run over these passes aborts in one of them, and no SIGINT has ended one before.
  pub data AbortsIn : List Pass → St → Type 0 where
    in_first :
        (pass : Pass) (rest : List Pass) (st : St)
        → AbortsAt pass.cqes (submit_and_wait pass st)
        → AbortsIn (pass ∷ rest) st
    in_rest :
        (pass : Pass) (rest : List Pass) (st st' : St)
        → for_each_cqe d tls pass.cqes (submit_and_wait pass st) ≡ ok st'
        → pass.has_sigint ≡ false
        → AbortsIn rest st'
        → AbortsIn (pass ∷ rest) st

  -- The log of these completions, and of these passes, behind an earlier one.
  abbrev pub log_cqes : List Cqe → St → Log → Log
  log_cqes [] st log = log
  log_cqes (c ∷ cs) st log =
      and_then (λ st'. log_cqes cs st' (logged c st log)) log (take_cqe d tls c st)

  abbrev pub log_passes : List Pass → St → Log → Log
  log_passes [] st log = log
  log_passes (pass ∷ rest) st log =
      and_then (λ st'. log_passes rest st' (log_cqes pass.cqes (submit_and_wait pass st) log)) log
        (for_each_cqe d tls pass.cqes (submit_and_wait pass st))

  -- A call from a run of a worker: it returns, and is a run with this log, or it aborts so.
  abbrev RunsOn : St → Log → Type 0 → Outcome St → Type 0
  RunsOn st₀ log aborts call =
      ((st : St) × (call ≡ ok st) × Flow d tls st₀ log.onwards log.completes st)
      ⊎ ((call ≡ fault abort) × aborts)

  -- The worker leaves its loop after a run with this log, or aborts so.
  abbrev LeavesAfter : St → Log → Type 0 → Outcome (Bool × St) → Type 0
  LeavesAfter st₀ log aborts call =
      ((st : St) × (call ≡ ok (true, st)) × Flow d tls st₀ log.onwards log.completes st)
      ⊎ ((call ≡ fault abort) × aborts)

module _ {d : Doubles} {tls : Tls} {i : ℕ} {st₀ : St}
    (carries : (out fin : List Datagram) (st : St)
      → Flow d tls st₀ out fin st
      → Carries tls i out fin st) where
  for_each_cqe-RunsOn :
      (cs : List Cqe) (log : Log) (st : St)
      → Flow d tls st₀ log.onwards log.completes st
      → Fills d tls cs st
      → RunsOn d tls st₀
          (log_cqes d tls cs st log)
          (AbortsAt d tls cs st)
          (for_each_cqe d tls cs st)
  unfolding for_each_cqe
  for_each_cqe-RunsOn [] log st r s = inl (st, refl, r)
  for_each_cqe-RunsOn (c ∷ cs) log st r (now, later) =
      elim (on_cqe-Ends d st c.before c.sqe c.after c.completion
        (carries log.onwards log.completes st r).inv now.in_ring now.accepted now.fits) [
          | inl (st₁, run, done) ↦
              let r₁ =
                handles c.before c.sqe c.after c.completion r now.in_ring now.accepted now.fits
                  run in
              elim (for_each_cqe-RunsOn cs (logged c st log) st₁ r₁ (rw run at later)) [
                | inl (st₂, rest, r₂) ↦ inl (st₂, rw run rest, rw run r₂)
                | inr (bad, why) ↦ inr (rw run bad, behind c cs st st₁ run why)
              ]
          | inr (bad, why) ↦ inr (rw bad refl, at_once c cs st bad why)
        ]

  worker_loop-LeavesAfter :
      (passes : List Pass) (last : Pass) (more : List Pass) (log : Log) (st : St)
      → Flow d tls st₀ log.onwards log.completes st
      → GoesOn passes
      → last.has_sigint ≡ true
      → Served d tls (passes ++ (last ∷ [])) st
      → LeavesAfter d tls st₀
          (log_passes d tls (passes ++ (last ∷ [])) st log)
          (AbortsIn d tls (passes ++ (last ∷ more)) st)
          (worker_loop d tls (passes ++ (last ∷ more)) st)
  unfolding worker_loop
  worker_loop-LeavesAfter [] last more log st r g e (same, fills, _) =
      let waits = other_threads (last.other_threads st.relay) (accepts r) same in
      elim (for_each_cqe-RunsOn last.cqes log (submit_and_wait last st) waits fills) [
        | inl (st₁, run, r₁) ↦ inl (st₁, rw (run, e) refl, rw run r₁)
        | inr (bad, why) ↦ inr (rw bad refl, in_first last more st why)
      ]
  worker_loop-LeavesAfter (pass ∷ passes) last more log st r (unset, g) e (same, fills, later) =
      let waits = other_threads (pass.other_threads st.relay) (accepts r) same in
      let now = log_cqes d tls pass.cqes (submit_and_wait pass st) log in
      elim (for_each_cqe-RunsOn pass.cqes log (submit_and_wait pass st) waits fills) [
        | inl (st₁, run, r₁) ↦
            elim (worker_loop-LeavesAfter passes last more now st₁ r₁ g e (rw run at later)) [
              | inl (st₂, rest, r₂) ↦ inl (st₂, rw (run, unset) rest, rw run r₂)
              | inr (bad, why) ↦
                  inr (
                    rw (run, unset) bad,
                    in_rest pass (passes ++ (last ∷ more)) st st₁ run unset why,
                  )
            ]
        | inr (bad, why) ↦ inr (rw bad refl, in_first pass (passes ++ (last ∷ more)) st why)
      ]

-- A worker of any index that starts, and passes of its loop in which the kernel completes entries that
-- it had accepted in any order and way, and other threads change the relay's members: the worker
-- leaves its loop at the end of the first pass that sees a SIGINT, whatever would follow. The
-- sends that have completed are those of the completions taken in these passes, and with the sends
-- still in the ring they are, up to their order, the datagrams of the peers that were taken in these
-- passes and named a session; no more are in the ring than there are events for sends. Or the run
-- over these passes aborts before that, at a completion which is a failed receive, or a datagram for
-- a session while every event was in use.
pub worker_loop-leaves :
    (d : Doubles) (tls : Tls) (i thread_index : ℕ) (r : Relay Session) (io : Context)
    (passes : List Pass) (last : Pass) (more : List Pass)
    → IsStarted i (length r.per_thread_statistics) tls
    → start_receives (listen_context_initialize thread_index) ≡ ok io
    → GoesOn passes
    → last.has_sigint ≡ true
    → Served d tls (passes ++ (last ∷ [])) (record { relay = r; world = io })
    → let st₀ : St = record { relay = r; world = io } in
      let call = worker_loop d tls (passes ++ (last ∷ more)) st₀ in
      let log = log_passes d tls (passes ++ (last ∷ [])) st₀ no_log in
      ((st : St) × (call ≡ ok (true, st))
        × Carries tls i log.onwards log.completes st
        × (kinds peer_tx st.world ≤ max_sends st.world.thread_index))
      ⊎ ((call ≡ fault abort) × AbortsIn d tls (passes ++ (last ∷ more)) st₀)
worker_loop-leaves d tls i thread_index r io passes last more s run g e served =
    let st₀ : St = record { relay = r; world = io } in
    let log = log_passes d tls (passes ++ (last ∷ [])) st₀ no_log in
    let carries = Flow-Carries d tls i thread_index r io in
    elim (worker_loop-LeavesAfter (λ out fin st flow. carries out fin st s run flow) passes last
      more no_log st₀ begins g e served) [
        | inl (st, done, flow) ↦
            let c = carries log.onwards log.completes st s run flow in
            let all = WorkerInv-sends c.inv in inl (st, done, c, ground arith)
        | inr bad ↦ inr bad
      ]
