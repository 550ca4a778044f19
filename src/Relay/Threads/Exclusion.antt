-- ===== src/Relay/Threads/Exclusion.antt =====
-- urn/relay.hpp with several threads: who holds `sessions_mutex_`.
use urn.Prelude.{
  ℕ, ◌≡◌, refl, Bool, true, false, List, [], ◌∷◌, none, some, ◌==◌, ◌||◌, if◌then◌else◌, update,
  arith,
}
use urn.Mutex.{SharedMutex, lock, unlock, lock_shared, unlock_shared, remove}
use urn.Relay.Threads.{
  ThreadLibrary, Call, Pc, emplacing, inserting, unlocking, looking, leaving, Shared, Move,
  lock_map, unlock_map, share_map, unshare_map, System, pick, Reach, start, later,
}

-- Between the return of `lock` and `unlock`, and of `lock_shared` and `unlock_shared`.
abbrev pub is_exclusive : {Endpoint Session : Type 0} → Pc Endpoint Session → Bool
is_exclusive (emplacing _ _ _) = true
is_exclusive (inserting _ _ _) = true
is_exclusive (unlocking _) = true
is_exclusive _ = false

abbrev pub is_sharing : {Endpoint Session : Type 0} → Pc Endpoint Session → Bool
is_sharing (looking _ _ _) = true
is_sharing (leaving _ _) = true
is_sharing _ = false

abbrev member : ℕ → List ℕ → Bool
member i [] = false
member i (j ∷ rest) = (i == j) || member i rest

member-remove :
    (i j : ℕ) (xs : List ℕ) → member j (remove i xs) ≡ (if i == j then false else member j xs)
member-remove i j [] = ground arith
member-remove i j (k ∷ xs) = ground (arith, member-remove i j xs)

pub record Held {Endpoint Session : Type 0} (m : SharedMutex) (pc : ℕ → Pc Endpoint Session)
    : Type 0 where
  pub owned : (i : ℕ) → is_exclusive (pc i) ≡ true → m.owner ≡ some i
  pub owner : (i : ℕ) → m.owner ≡ some i → is_exclusive (pc i) ≡ true
  pub sharers : (i : ℕ) → is_sharing (pc i) ≡ member i m.sharers
  pub apart : (i : ℕ) → m.owner ≡ some i → m.sharers ≡ []

-- What a call that did not block found, and left.
lock-taken :
    (i : ℕ) (m m' : SharedMutex)
    → lock true i m ≡ some m'
    → (m.owner ≡ none) × (m.sharers ≡ []) × (m'.owner ≡ some i) × (m'.sharers ≡ [])
unfolding lock
lock-taken i m m' h = ground arith

lock_shared-taken :
    (i : ℕ) (m m' : SharedMutex)
    → lock_shared true i m ≡ some m'
    → (m.owner ≡ none) × (m'.owner ≡ none) × (m'.sharers ≡ i ∷ m.sharers)
unfolding lock_shared
lock_shared-taken i m m' h = ground arith

module _ {Endpoint Session World : Type 0} (lib : ThreadLibrary Endpoint Session World) where
  module _ {m : Shared lib} {pc : ℕ → Pc Endpoint Session} (inv : Held m.mutex pc) (i : ℕ) where
    open inv use {owned, owner, sharers, apart}

    Move-owned :
        {p p' : Pc Endpoint Session} {cs cs' : List (Call Endpoint)} {m' : Shared lib}
        → Move lib true i m p cs m' p' cs'
        → pc i ≡ p
        → (j : ℕ) → is_exclusive (update pc i p' j) ≡ true
        → m'.mutex.owner ≡ some j
    unfolding unlock unlock_shared
    Move-owned (lock_map {mutex} e) here j h = ground (arith, owned j, lock-taken i m.mutex mutex e)
    Move-owned unlock_map here j h = ground (arith, owned i, owned j)
    Move-owned (share_map {mutex} e) here j h =
        ground (arith, owned j, lock_shared-taken i m.mutex mutex e)
    Move-owned mv here j h = ground (arith, owned j, owned i)

    Move-owner :
        {p p' : Pc Endpoint Session} {cs cs' : List (Call Endpoint)} {m' : Shared lib}
        → Move lib true i m p cs m' p' cs'
        → pc i ≡ p
        → (j : ℕ) → m'.mutex.owner ≡ some j
        → is_exclusive (update pc i p' j) ≡ true
    unfolding unlock unlock_shared
    Move-owner (lock_map {mutex} e) here j h = ground (arith, owner j, lock-taken i m.mutex mutex e)
    Move-owner unlock_map here j h = ground (arith, owner i, owner j)
    Move-owner (share_map {mutex} e) here j h =
        ground (arith, owner j, lock_shared-taken i m.mutex mutex e)
    Move-owner mv here j h = ground (arith, owner j, owner i)

    Move-sharers :
        {p p' : Pc Endpoint Session} {cs cs' : List (Call Endpoint)} {m' : Shared lib}
        → Move lib true i m p cs m' p' cs'
        → pc i ≡ p
        → (j : ℕ) → is_sharing (update pc i p' j) ≡ member j m'.mutex.sharers
    unfolding unlock unlock_shared
    Move-sharers (lock_map {mutex} e) here j =
        ground (arith, sharers j, lock-taken i m.mutex mutex e)
    Move-sharers (share_map {mutex} e) here j =
        ground (arith, sharers j, lock_shared-taken i m.mutex mutex e)
    Move-sharers unshare_map here j =
        ground (arith, sharers i, sharers j, member-remove i j m.mutex.sharers)
    Move-sharers mv here j = ground (arith, sharers j, sharers i)

    Move-apart :
        {p p' : Pc Endpoint Session} {cs cs' : List (Call Endpoint)} {m' : Shared lib}
        → Move lib true i m p cs m' p' cs'
        → pc i ≡ p
        → (j : ℕ) → m'.mutex.owner ≡ some j
        → m'.mutex.sharers ≡ []
    unfolding unlock unlock_shared
    Move-apart (lock_map {mutex} e) here j h = ground (arith, lock-taken i m.mutex mutex e)
    Move-apart (share_map {mutex} e) here j h = ground (arith, lock_shared-taken i m.mutex mutex e)
    Move-apart mv here j h = ground (arith, apart j)

    Move-Held :
        {p' : Pc Endpoint Session} {cs cs' : List (Call Endpoint)} {m' : Shared lib}
        → Move lib true i m (pc i) cs m' p' cs'
        → Held m'.mutex (update pc i p')
    Move-Held mv = record {
      owned = Move-owned mv refl;
      owner = Move-owner mv refl;
      sharers = Move-sharers mv refl;
      apart = Move-apart mv refl;
    }

  pub Reach-Held :
      {n : ℕ} {w : ℕ → World} {calls : ℕ → List (Call Endpoint)} {s : System lib}
      → Reach lib true n w calls s
      → Held s.shared.mutex s.pc
  Reach-Held start = record {
    owned = λ i h. cc;
    owner = λ i h. cc;
    sharers = λ i. refl;
    apart = λ i h. refl;
  }
  Reach-Held (later {s} r (pick i lt mv)) = Move-Held (Reach-Held r) i mv
