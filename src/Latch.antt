-- ===== src/Latch.antt =====
-- common/latch.h, and its copy in uring/relay.cpp: `countdown_latch`, at which each worker waits until all
-- have started. The parts of `wait` that hold the mutex are one step each; waiting on the condition
-- variable lets go of the mutex, and ends on a notification or for no reason.
pub mod Invariant
pub mod Passing
mod Examples
use urn.Prelude.{
  ℕ, zero, suc, ◌+◌, ◌-◌, ◌%◌, ◌^◌, ◌≡◌, ◌<◌, Bool, List, [], ◌∷◌, ◌++◌, map, ◌==◌, if◌then◌else◌,
}

abbrev pub int64_mod : ℕ
int64_mod = 2 ^ 64

-- The integers modulo 2⁶⁴: the overflow of an `int64_t`, undefined in C++, is the wrap-around here.
pub record CountdownLatch : Type 0 where
  pub count : ℕ
  pub generation : ℕ

abbrev pub countdown_latch : ℕ → CountdownLatch
countdown_latch count = record { count = count; generation = 0 }

-- Where a thread stands: before its call of `wait`, on the condition variable or about to test the
-- predicate with its local `gen`, or behind the call.
pub data Thread : Type 0 where
  outside : Thread
  asleep : ℕ → Thread
  awake : ℕ → Thread
  inside : Thread

pub record System : Type 0 where
  pub latch : CountdownLatch
  pub threads : List Thread

-- `cond.notify_all()`, for one thread.
abbrev pub wake : Thread → Thread
wake (asleep gen) = awake gen
wake thread = thread

-- `--count`
abbrev pub decrement : ℕ → ℕ
decrement count = (count + int64_mod - 1) % int64_mod

-- `wait` up to its return or to the condition variable, by the thread between `left` and `right`.
unfoldable pub arrive : CountdownLatch → List Thread → List Thread → System
arrive latch left right =
    let gen = latch.generation in
    let count = decrement latch.count in
    if count == 0
    then record {
      latch = record { count = count; generation = (gen + 1) % int64_mod };
      threads = map wake left ++ (inside ∷ map wake right);
    }
    else record { latch = record latch { count = count }; threads = left ++ (asleep gen ∷ right) }

-- The predicate of `cond.wait`: the thread returns or waits again.
unfoldable pub test : ℕ → CountdownLatch → Thread
test gen latch = if gen == latch.generation then asleep gen else inside

pub data Step : System → System → Type 0 where
  arrives :
      (left right : List Thread) (s : System)
      → s.threads ≡ left ++ (outside ∷ right)
      → Step s (arrive s.latch left right)
  wakes :
      (left right : List Thread) (gen : ℕ) (s : System)
      → s.threads ≡ left ++ (asleep gen ∷ right)
      → Step s (record s { threads = left ++ (awake gen ∷ right) })
  tests :
      (left right : List Thread) (gen : ℕ) (s : System)
      → s.threads ≡ left ++ (awake gen ∷ right)
      → Step s (record s { threads = left ++ (test gen s.latch ∷ right) })

abbrev pub all_outside : ℕ → List Thread
all_outside zero = []
all_outside (suc n) = outside ∷ all_outside n

-- The states of `n` threads that share a latch for `n`.
pub data Reach (n : ℕ) : System → Type 0 where
  start : Reach n (record { latch = countdown_latch n; threads = all_outside n })
  next : (s s' : System) → Reach n s → Step s s' → Reach n s'
