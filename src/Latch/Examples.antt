-- ===== src/Latch/Examples.antt =====
-- Tests of the model of common/latch.h, and its theorems at concrete inputs.
use urn.Prelude.{◌≡◌, refl, [], ◌∷◌, arith}
use urn.Latch.{
  countdown_latch, outside, asleep, awake, inside, System, arrive, arrives, Reach, start, next,
}
use urn.Latch.Invariant.{missing}
use urn.Latch.Passing.{all_inside, Tests, inside-none_missing, none_missing-all_inside}

-- Of two threads the second calls `wait` first.
abbrev one_waits : System
one_waits = record {
  latch = record { count = 1; generation = 0 };
  threads = outside ∷ asleep 0 ∷ [];
}

abbrev both_called : System
both_called = record {
  latch = record { count = 0; generation = 1 };
  threads = inside ∷ awake 0 ∷ [];
}

both_called-Reach : Reach 2 both_called
unfolding arrive
both_called-Reach =
    next one_waits both_called
      (next (record { latch = countdown_latch 2; threads = outside ∷ outside ∷ [] }) one_waits start
        (arrives (outside ∷ []) []
          (record { latch = countdown_latch 2; threads = outside ∷ outside ∷ [] }) refl))
      (arrives [] (asleep 0 ∷ []) one_waits refl)

inside-none_missing_example : missing both_called.threads ≡ 0
inside-none_missing_example =
    inside-none_missing 2 both_called [] (awake 0 ∷ []) (omega arith) (omega arith)
      both_called-Reach refl

none_missing-all_inside_example :
    Tests both_called (record both_called { threads = all_inside both_called.threads })
none_missing-all_inside_example =
    none_missing-all_inside 2 both_called (omega arith) (omega arith) both_called-Reach refl
