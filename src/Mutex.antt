-- ===== src/Mutex.antt =====
-- urn/mutex.hpp: `shared_mutex<MultiThreaded>`, a `std::shared_mutex` or a mutex that does nothing. A call
-- gives the mutex after it, or `none` while it blocks.
use urn.Prelude.{
  ℕ, ◌≡◌, refl, Bool, true, false, List, [], ◌∷◌, Option, none, some, ◌==◌, if◌then◌else◌,
}

-- The thread that holds the mutex exclusively, and those that share it.
pub record SharedMutex : Type 0 where
  pub owner : Option ℕ
  pub sharers : List ℕ

abbrev pub unlocked : SharedMutex
unlocked = record { owner = none; sharers = [] }

-- A thread lets go of its share.
abbrev pub remove : ℕ → List ℕ → List ℕ
remove i [] = []
remove i (j ∷ rest) = if i == j then remove i rest else j ∷ remove i rest

unfoldable pub lock : Bool → ℕ → SharedMutex → Option SharedMutex
lock false i m = some m
lock true i m = elim m.owner [
  | some _ ↦ none
  | none ↦ elim m.sharers [ [] ↦ some (record m { owner = some i }) | _ ∷ _ ↦ none ]
]

unfoldable pub unlock : Bool → ℕ → SharedMutex → SharedMutex
unlock false i m = m
unlock true i m = record m { owner = none }

unfoldable pub lock_shared : Bool → ℕ → SharedMutex → Option SharedMutex
lock_shared false i m = some m
lock_shared true i m = elim m.owner [
  | some _ ↦ none
  | none ↦ some (record m { sharers = i ∷ m.sharers })
]

unfoldable pub unlock_shared : Bool → ℕ → SharedMutex → SharedMutex
unlock_shared false i m = m
unlock_shared true i m = record m { sharers = remove i m.sharers }

-- urn/mutex.test.cpp: locking twice is allowed for the mutex that does nothing.
double_lock :
    (i : ℕ)
    → (lock true i unlocked ≡ some (record { owner = some i; sharers = [] }))
      × (lock false i unlocked ≡ some unlocked)
unfolding lock
double_lock i = (refl, refl)
