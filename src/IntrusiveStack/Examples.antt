-- ===== src/IntrusiveStack/Examples.antt =====
-- The theorems about urn/intrusive_stack.hpp at the input of its test "interleaved_push_pop".
use urn.Prelude.{◌≡◌, refl, List, [], ◌∷◌, arith}
use urn.IntrusiveStack.{nullptr, Hooks, empty_stack, Op, pushes, pops, run}
use urn.IntrusiveStack.Laws.{popped, run-popped}

abbrev no_hooks : Hooks
no_hooks _ = nullptr

abbrev interleaved : List Op
interleaved =
    pops ∷ pushes 1 ∷ pushes 2 ∷ pops ∷ pushes 3 ∷ pops ∷ pushes 3 ∷ pops ∷ pops ∷ pops ∷ []

run-popped_example : run interleaved empty_stack no_hooks ≡ 0 ∷ 2 ∷ 3 ∷ 3 ∷ 1 ∷ 0 ∷ []
unfolding popped
run-popped_example =
    run-popped interleaved no_hooks empty_stack [] refl
      (omega arith, refl, (omega arith, refl, (omega arith, refl, (omega arith, refl, tt))))
