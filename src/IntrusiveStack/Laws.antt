-- ===== src/IntrusiveStack/Laws.antt =====
-- The operations of `urn::intrusive_stack` against the list of nodes that it holds.
use urn.Prelude.{◌≡◌, refl, ◌≢◌, true, false, List, [], ◌∷◌, arith, ◌==◌, ◌↔◌}
use urn.IntrusiveStack.{
  Ptr, nullptr, Hooks, IntrusiveStack, push, try_pop, top, is_empty, Op, pushes, pops, run,
}
use urn.IntrusiveStack.Chain.{has, Holds, Chain-write_hook}

-- Pushing a node that is not null and not yet in the stack puts it in front of the nodes held, and
-- changes the hook of no other node.
pub push-Holds :
    (h : Hooks) (s : IntrusiveStack) (xs : List Ptr) (node : Ptr)
    → node ≢ nullptr
    → has node xs ≡ false
    → Holds h s xs
    → let r = push s node h in Holds r.1 r.0 (node ∷ xs) × ((a : Ptr) → a ≢ node → r.1 a ≡ h a)
unfolding push
push-Holds h s xs node nn fresh c =
    let self : (node == node) ≡ true = ground arith in
    (
      (refl, nn, fresh, rw self (Chain-write_hook h node s.top_ s.top_ xs fresh c)),
      λ a ne. ground arith,
    )

-- The first of the nodes held, `nullptr` if there are none.
abbrev pub front : List Ptr → Ptr
front [] = nullptr
front (x ∷ xs) = x

abbrev pub rest_of : List Ptr → List Ptr
rest_of [] = []
rest_of (x ∷ xs) = xs

-- Popping returns the front and leaves the rest, and on an empty stack returns `nullptr` and leaves
-- it empty; `top` returns what `try_pop` would, and `is_empty` holds exactly when no node is held.
pub try_pop-Holds :
    (h : Hooks) (s : IntrusiveStack) (xs : List Ptr)
    → Holds h s xs
    → ((try_pop s h).0 ≡ front xs)
      × Holds h (try_pop s h).1 (rest_of xs)
      × (top s ≡ (try_pop s h).0)
      × ((is_empty s ≡ true) ↔ (xs ≡ []))
unfolding try_pop top is_empty
try_pop-Holds h s [] c = rw c (refl, refl, refl, (λ _. refl, λ _. refl))
try_pop-Holds h s (x ∷ xs) (e, nn, _, c) =
    let full : (s.top_ == nullptr) ≡ false = ground arith in
    rw full (e, rw e c, refl, (λ b. cc, λ q. cc))

-- A history is sound when each pushed node is not null and not in the stack at that moment.
abbrev pub IsSound : List Op → List Ptr → Type 0
IsSound [] xs = Unit {0}
IsSound (pushes n ∷ ops) xs = (n ≢ nullptr) × (has n xs ≡ false) × IsSound ops (n ∷ xs)
IsSound (pops ∷ ops) xs = IsSound ops (rest_of xs)

-- The abstract stack: what the pops of a history return.
unfoldable pub popped : List Op → List Ptr → List Ptr
popped [] xs = []
popped (pushes n ∷ ops) xs = popped ops (n ∷ xs)
popped (pops ∷ ops) xs = front xs ∷ popped ops (rest_of xs)

-- Over any sound history of pushes and pops, the intrusive stack in memory returns exactly the nodes
-- that a last-in first-out list returns, in the same order.
pub run-popped :
    (ops : List Op) (h : Hooks) (s : IntrusiveStack) (xs : List Ptr)
    → Holds h s xs
    → IsSound ops xs
    → run ops s h ≡ popped ops xs
unfolding run popped
run-popped [] h s xs c v = refl
run-popped (pushes n ∷ ops) h s xs c (nn, fresh, v) =
    run-popped ops (push s n h).1 (push s n h).0 (n ∷ xs) (push-Holds h s xs n nn fresh c).0 v
run-popped (pops ∷ ops) h s xs c v =
    let r = try_pop-Holds h s xs c in rw (r.0, run-popped ops h (try_pop s h).1 (rest_of xs) r.1 v)
