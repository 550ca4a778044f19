-- ===== src/Uring/Worker/System.antt =====
-- A worker of uring/relay.cpp from its start, with a kernel that completes the entries of the ring in
-- any order.
use urn.Prelude.{
  ℕ, ◌+◌, ◌≤◌, ◌≡◌, refl, inl, inr, List, [], ◌∷◌, ◌++◌, arith, ◌==◌, if◌then◌else◌, length, ok,
}
use urn.Relay.Statistics.{Doubles}
use urn.Relay.Logic.{Tls, Relay}
use urn.Relay.Logic.Counters.{IsStarted}
use urn.Uring.Context.{
  Context, Session, RingEvent, invalid, client_rx, peer_rx, peer_tx, timer, Sqe,
  listen_context_initialize,
}
use urn.Uring.Events.Owned.{count_kind}
use urn.Uring.Events.Pool.{kinds}
use urn.Uring.Worker.{St, on_cqe, start_receives, submit}
use urn.Uring.Worker.Invariant.{WorkerInv, Completion, Fits, res_of, completed, one_if}
use urn.Uring.Worker.Outcomes.{on_cqe-Ends}
use urn.Uring.Worker.Starting.{start_receives-Settled}

-- A step of the system: the kernel accepts what was put into the ring, or it completes an entry that
-- it had accepted, and the worker handles that.
pub data Step (d : Doubles) (tls : Tls) (st st' : St) : Type 0 where
  submits : st' ≡ record st { world = submit st.world } → Step d tls st st'
  completes :
      (xs : List Sqe) (q : Sqe) (ys : List Sqe) (c : Completion)
      → st.world.ring ≡ xs ++ (q ∷ ys)
      → st.world.unsubmitted ≤ length xs
      → Fits (st.world.io_events q.event).kind c
      → on_cqe d tls q.event (res_of c) (completed xs q ys c st) ≡ ok st'
      → Step d tls st st'

-- The states that a worker which was started in `st` can be in.
pub data Reach (d : Doubles) (tls : Tls) (st : St) : St → Type 0 where
  here : Reach d tls st st
  next : {st₁ st₂ : St} → Reach d tls st st₁ → Step d tls st₁ st₂ → Reach d tls st st₂

module _ {d : Doubles} {tls : Tls} {i : ℕ} where
  pub Step-WorkerInv : {st st' : St} → Step d tls st st' → WorkerInv tls i st → WorkerInv tls i st'
  unfolding submit
  Step-WorkerInv {st} {st'} (submits e) inv =
      let s = inv.settled in
      rw e (record {
        started = inv.started;
        settled = record {
          owned = record {
            once = s.owned.once;
            armed = s.owned.armed;
            all_there = s.owned.all_there;
          };
          one_client = s.one_client;
          one_peer = s.one_peer;
          main_timer = s.main_timer;
          no_invalid = s.no_invalid;
          queued = omega arith;
          files = s.files;
          on_files = s.on_files;
        };
      })
  Step-WorkerInv {st} {st'} (completes xs q ys c e s f run) inv =
      elim (on_cqe-Ends d st xs q ys c inv e s f) [
        | inl (st₁, run₁, inv₁) ↦ let same : st₁ ≡ st' = ground arith in rw (← same) inv₁.inv
        | inr (bad, _) ↦ absurd (ground (arith, bad))
      ]

  Reach-WorkerInv : {st st' : St} → WorkerInv tls i st → Reach d tls st st' → WorkerInv tls i st'
  Reach-WorkerInv inv here = inv
  Reach-WorkerInv inv (next r s) = Step-WorkerInv s (Reach-WorkerInv inv r)

-- Every entry of the ring has one kind.
kinds-length :
    (ev : ℕ → RingEvent) (qs : List Sqe)
    → count_kind invalid ev qs
        + count_kind client_rx ev qs
        + count_kind peer_rx ev qs
        + count_kind peer_tx ev qs
        + count_kind timer ev qs
      ≡ length qs
kinds-length ev [] = refl
kinds-length ev (q ∷ qs) = ground (arith, kinds-length ev qs)

pub WorkerInv-sends :
    {tls : Tls} {i : ℕ} {st : St}
    → WorkerInv tls i st
    → length st.world.free_event_ids + kinds peer_tx st.world + one_if (st.world.thread_index == 0)
      ≡ 14
WorkerInv-sends {st} inv =
    let s = inv.settled in
    omega (
      arith,
      s.owned.all_there,
      s.one_client,
      s.one_peer,
      s.main_timer,
      s.no_invalid,
      kinds-length st.world.io_events st.world.ring,
    )

-- The number of sends for which a worker has events: sixteen, less the receive on each socket and the
-- timer of the main worker.
abbrev pub max_sends : ℕ → ℕ
max_sends thread_index = if thread_index == 0 then 13 else 14

pub worker-WorkerInv :
    (d : Doubles) (tls : Tls) (i thread_index : ℕ) (r : Relay Session) (io : Context) (st : St)
    → IsStarted i (length r.per_thread_statistics) tls
    → start_receives (listen_context_initialize thread_index) ≡ ok io
    → Reach d tls (record { relay = r; world = io }) st
    → WorkerInv tls i st
      × (length st.world.free_event_ids + kinds peer_tx st.world ≡ max_sends st.world.thread_index)
worker-WorkerInv d tls i thread_index r io st s run reach =
    let (io', run', settled, _, _) = start_receives-Settled thread_index in
    let same : io' ≡ io = ground (arith, run, run') in
    let inv =
      Reach-WorkerInv {i = i} (record { started = s; settled = rw same at settled }) reach in
    (inv, ground (arith, WorkerInv-sends inv))
