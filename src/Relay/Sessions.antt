-- ===== src/Relay/Sessions.antt =====
-- urn/relay.hpp: the session map. `std::unordered_map` is a list of pairs with distinct keys; the
-- code only uses `find` and `try_emplace` of it.
pub mod Laws
use urn.Prelude.{ℕ, Bool, true, false, List, [], ◌∷◌, Option, none, some, ◌==◌, if◌then◌else◌}

module _ {ℓ} {S : Type ℓ} where
  unfoldable pub find : ℕ → List (ℕ × S) → Option S
  find id [] = none
  find id ((j, s) ∷ sessions) = if j == id then some s else find id sessions

  -- `try_emplace(id, src).second` and the map after it: nothing is constructed if the key is there.
  unfoldable pub try_emplace : ℕ → S → List (ℕ × S) → Bool × List (ℕ × S)
  unfolding find
  try_emplace id s sessions = elim (find id sessions) [
    | some _ ↦ (false, sessions)
    | none ↦ (true, (id, s) ∷ sessions)
  ]
