-- ===== src/Relay/Statistics/Distribution.antt =====
-- The text of the ingress distribution.
use mathlib.Core.List.{append_assoc, append-nil}
use urn.Prelude.{ℕ, ◌≡◌, refl, ap, sym, ◌∙◌, List, [], ◌∷◌, ◌++◌, map}
use urn.Relay.Statistics.{
  Statistics, no_statistics, Doubles, load_loop, load_statistics, distribution_loop, share,
  share_text, pop_back,
}
use urn.Relay.Statistics.Laws.{load_loop-copies}

-- The items with a slash between each two of them.
unfoldable pub join : List (List ℕ) → List ℕ
join [] = []
join (x ∷ []) = x
join (x ∷ y ∷ ys) = x ++ (b'/' ∷ join (y ∷ ys))

-- The items with a slash behind each of them.
closed : List (List ℕ) → List ℕ
closed [] = []
closed (x ∷ xs) = x ++ (b'/' ∷ closed xs)

module _ (d : Doubles) where
  unfoldable pub percent : ℕ → Statistics → List ℕ
  percent total s = d.print_fixed (share d total s.ingress.bytes) ++ (b'%' ∷ [])

  pop_back-append :
      (xs : List ℕ) (y : ℕ) (ys : List ℕ) → pop_back d (xs ++ (y ∷ ys)) ≡ xs ++ pop_back d (y ∷ ys)
  unfolding pop_back
  pop_back-append [] y ys = refl
  pop_back-append (x ∷ []) y ys = refl
  pop_back-append (x ∷ x' ∷ xs) y ys = ap (◌∷◌ x) (pop_back-append (x' ∷ xs) y ys)

  pop_back-closed : (xs : List (List ℕ)) → pop_back d (closed xs) ≡ join xs
  unfolding closed join pop_back
  pop_back-closed [] = refl
  pop_back-closed (x ∷ []) = pop_back-append x b'/' [] ∙ append-nil x
  pop_back-closed (x ∷ y ∷ ys) =
      pop_back-append x b'/' (closed (y ∷ ys))
      ∙ ap (◌++◌ x) (
          pop_back-append (b'/' ∷ y) b'/' (closed ys)
          ∙ ap (◌∷◌ b'/') (sym (pop_back-append y b'/' (closed ys)) ∙ pop_back-closed (y ∷ ys)))

  loop-closed :
      (total : ℕ) (xs : List Statistics) (text : List ℕ)
      → distribution_loop d total xs text ≡ text ++ closed (map (percent total) xs)
  unfolding distribution_loop closed percent share_text
  loop-closed total [] text = sym (append-nil text)
  loop-closed total (s ∷ xs) text = loop-closed total xs _ ∙ simp append_assoc

  -- The distribution names each thread's share of the received bytes, in the threads' order,
  -- followed by a percent sign, and with a slash between each two; without threads it is empty.
  pub load_statistics-join :
      (xs : List Statistics)
      → let r = load_statistics d xs in r.1 ≡ join (map (percent r.2.ingress.bytes) xs)
  unfolding load_statistics
  load_statistics-join xs =
      let total = (load_loop xs no_statistics).total.ingress.bytes in
      ap (pop_back d) (rw load_loop-copies (loop-closed total xs []))
      ∙ pop_back-closed (map (percent total) xs)
