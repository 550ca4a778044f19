-- ===== src/Latch/Passing.antt =====
-- common/latch.h: when threads pass the latch.
use urn.Prelude.{ℕ, ◌<◌, ◌≡◌, refl, inl, inr, List, [], ◌∷◌, ◌++◌, arith}
use mathlib.Core.Path.{subst}
use mathlib.Core.List.{append_assoc}
use urn.Latch.{
  int64_mod, CountdownLatch, Thread, outside, asleep, awake, inside, System, test, Reach,
}
use urn.Latch.Invariant.{missing, AllOf, IsWaiting, IsReleased, AllOf-at, Reach-Inv}

released-missing : (xs : List Thread) → AllOf IsReleased xs → missing xs ≡ 0
released-missing [] h = refl
released-missing (outside ∷ xs) (h, hs) = absurd h
released-missing (asleep gen ∷ xs) (h, hs) = absurd h
released-missing (awake gen ∷ xs) (h, hs) = omega (arith, released-missing xs hs)
released-missing (inside ∷ xs) (h, hs) = omega (arith, released-missing xs hs)

-- In every state that some threads reach with a latch for as many, fewer than 2⁶⁴, a thread is behind its
-- call of `wait` only if every thread has called it.
pub inside-none_missing :
    (n : ℕ) (s : System) (left right : List Thread)
    → 0 < n
    → n < int64_mod
    → Reach n s
    → s.threads ≡ left ++ (inside ∷ right)
    → missing s.threads ≡ 0
inside-none_missing n s left right some_threads small r e =
    elim (Reach-Inv n s some_threads small r) [
      | inl c ↦ absurd (AllOf-at IsWaiting inside left right (subst (AllOf IsWaiting) e c.waiting))
      | inr o ↦ released-missing s.threads o.released
    ]

abbrev pub all_inside : List Thread → List Thread
all_inside [] = []
all_inside (x ∷ xs) = inside ∷ all_inside xs

-- Tests of the predicate, one after the other, by threads that are awake.
pub data Tests : System → System → Type 0 where
  finished : (s : System) → Tests s s
  one_more :
      (left right : List Thread) (gen : ℕ) (s s' : System)
      → s.threads ≡ left ++ (awake gen ∷ right)
      → Tests (record s { threads = left ++ (test gen s.latch ∷ right) }) s'
      → Tests s s'

regroup :
    (left xs : List Thread) (latch : CountdownLatch)
    → Tests
        (record { latch = latch; threads = (left ++ (inside ∷ [])) ++ xs })
        (record { latch = latch; threads = (left ++ (inside ∷ [])) ++ all_inside xs })
    → Tests
        (record { latch = latch; threads = left ++ (inside ∷ xs) })
        (record { latch = latch; threads = left ++ (inside ∷ all_inside xs) })
regroup left xs latch h =
    subst
      (λ ys.
        Tests (record { latch = latch; threads = ys })
          (record { latch = latch; threads = left ++ (inside ∷ all_inside xs) }))
      (append_assoc left (inside ∷ []) xs)
      (subst
        (λ zs.
          Tests (record { latch = latch; threads = (left ++ (inside ∷ [])) ++ xs })
            (record { latch = latch; threads = zs }))
        (append_assoc left (inside ∷ []) (all_inside xs)) h)

release :
    (left xs : List Thread) (latch : CountdownLatch)
    → latch.generation ≡ 1
    → AllOf IsReleased xs
    → Tests
        (record { latch = latch; threads = left ++ xs })
        (record { latch = latch; threads = left ++ all_inside xs })
release left [] latch e h = finished (record { latch = latch; threads = left ++ [] })
release left (outside ∷ xs) latch e (h, hs) = absurd h
release left (asleep gen ∷ xs) latch e (h, hs) = absurd h
release left (inside ∷ xs) latch e (h, hs) =
    regroup left xs latch (release (left ++ (inside ∷ [])) xs latch e hs)
release left (awake gen ∷ xs) latch e (h, hs) =
    let through : test gen latch ≡ inside = unfold test in rw (h, e) refl in
    one_more left xs gen (record { latch = latch; threads = left ++ (awake gen ∷ xs) })
      (record { latch = latch; threads = left ++ (inside ∷ all_inside xs) }) refl
      (rw through (regroup left xs latch (release (left ++ (inside ∷ [])) xs latch e hs)))

-- In every state that some threads reach with a latch for as many, fewer than 2⁶⁴, in which every thread has
-- called `wait`, no thread still needs a notification: tests of the predicate by the threads that
-- are awake let all of them through.
pub none_missing-all_inside :
    (n : ℕ) (s : System)
    → 0 < n
    → n < int64_mod
    → Reach n s
    → missing s.threads ≡ 0
    → Tests s (record s { threads = all_inside s.threads })
none_missing-all_inside n s some_threads small r all_called =
    elim (Reach-Inv n s some_threads small r) [
      | inl c ↦ absurd (omega (arith, c.some_missing, all_called))
      | inr o ↦ release [] s.threads s.latch o.second o.released
    ]
