-- ===== src/Uring/Worker/Loop.antt =====
-- uring/relay.cpp: the loop of `worker`, up to the pass in which it sees that `handle_sigint` has
-- run.
use urn.Prelude.{Bool, true, false, List, [], ◌∷◌, Outcome, ok, ◌>>=◌}
use urn.Relay.Statistics.{Doubles}
use urn.Relay.Logic.{Tls, Relay}
use urn.Uring.Context.{Session, Sqe}
use urn.Uring.Worker.{St, on_cqe, submit}
use urn.Uring.Worker.Invariant.{Completion, res_of, completed}

-- An entry of the completion queue: the entry of the ring that it completes, between those before
-- and behind it, and how.
pub record Cqe : Type 0 where
  pub before : List Sqe
  pub sqe : Sqe
  pub after : List Sqe
  pub completion : Completion

-- A pass: what other threads do to the relay during the wait, what the completion queue holds, and
-- `has_sigint` at the end.
pub record Pass : Type 0 where
  pub other_threads : Relay Session → Relay Session
  pub cqes : List Cqe
  pub has_sigint : Bool

-- `io_uring_submit_and_wait`
abbrev pub submit_and_wait : Pass → St → St
submit_and_wait pass st = record { relay = pass.other_threads st.relay; world = submit st.world }

module _ (d : Doubles) (tls : Tls) where
  abbrev pub take_cqe : Cqe → St → Outcome St
  take_cqe c st =
      on_cqe d tls c.sqe.event (res_of c.completion)
        (completed c.before c.sqe c.after c.completion st)

  -- `io_uring_for_each_cqe`
  unfoldable pub for_each_cqe : List Cqe → St → Outcome St
  for_each_cqe [] st = ok st
  for_each_cqe (c ∷ cs) st = do st ← take_cqe c st; for_each_cqe cs st

  -- The loop over some passes: whether it has been left, and the state.
  unfoldable pub worker_loop : List Pass → St → Outcome (Bool × St)
  worker_loop [] st = ok (false, st)
  worker_loop (pass ∷ rest) st = do
    st ← for_each_cqe pass.cqes (submit_and_wait pass st)
    elim pass.has_sigint [ true ↦ ok (true, st) | false ↦ worker_loop rest st ]
