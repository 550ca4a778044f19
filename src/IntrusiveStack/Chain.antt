-- ===== src/IntrusiveStack/Chain.antt =====
-- What the memory of an intrusive stack stands for: the list of its nodes, the top first.
use urn.Prelude.{◌≡◌, refl, ◌≢◌, Bool, false, ◌||◌, List, [], ◌∷◌, arith, ◌==◌}
use urn.IntrusiveStack.{Ptr, nullptr, Hooks, write_hook, IntrusiveStack}

abbrev pub has : Ptr → List Ptr → Bool
has a [] = false
has a (x ∷ xs) = (a == x) || has a xs

-- From `p` the hooks lead through the distinct nodes `xs` to `nullptr`.
abbrev pub Chain : Hooks → Ptr → List Ptr → Type 0
Chain h p [] = p ≡ nullptr
Chain h p (x ∷ xs) = (p ≡ x) × (x ≢ nullptr) × (has x xs ≡ false) × Chain h (h x) xs

abbrev pub Holds : Hooks → IntrusiveStack → List Ptr → Type 0
Holds h s xs = Chain h s.top_ xs

-- A chain survives a write to a hook that is not its own.
pub Chain-write_hook :
    (h : Hooks) (a q : Ptr) (p : Ptr) (xs : List Ptr)
    → has a xs ≡ false
    → Chain h p xs
    → Chain (write_hook h a q) p xs
Chain-write_hook h a q p [] out c = c
Chain-write_hook h a q p (x ∷ xs) out (e, nn, fresh, rest) = (
  e,
  nn,
  fresh,
  let other : (x == a) ≡ false = ground arith in
      rw other (Chain-write_hook h a q (h x) xs (ground arith) rest),
)

-- Memory determines the list.
pub Chain-unique : (h : Hooks) (p : Ptr) (xs ys : List Ptr) → Chain h p xs → Chain h p ys → xs ≡ ys
Chain-unique h p [] [] c d = refl
Chain-unique h p [] (y ∷ ys) c d = absurd (d.1 (ground arith))
Chain-unique h p (x ∷ xs) [] c d = absurd (c.1 (ground arith))
Chain-unique h p (x ∷ xs) (y ∷ ys) (e, _, _, c) (e', nn, f, d) =
    let same : x ≡ y = ground arith in cc (same, Chain-unique h (h x) xs ys c (ground arith))
