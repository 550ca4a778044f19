-- ===== src/Relay/Sessions/Laws.antt =====
-- The session map: what is registered stays, and only a new identifier is added.
use urn.Prelude.{ℕ, ◌≡◌, List, Option, none, some, arith, ◌==◌, if◌then◌else◌}
use urn.Relay.Sessions.{find, try_emplace}

module _ {ℓ} {S : Type ℓ} where
  -- The first registration wins.
  abbrev pub or_else : Option S → Option S → Option S
  or_else none o = o
  or_else (some s) o = some s

  pub find-try_emplace :
      (id j : ℕ) (s : S) (sessions : List (ℕ × S))
      → find j (try_emplace id s sessions).1
        ≡ or_else (find j sessions) (if id == j then some s else none)
  unfolding find try_emplace
  find-try_emplace id j s sessions = ground arith
