-- ===== src/Relay/Threads/Progress.antt =====
-- urn/relay.hpp with several threads: no two accesses of the session map race, and no run gets stuck.
use urn.Prelude.{
  ℕ, zero, suc, ◌+◌, ◌*◌, ◌<◌, ◌≤◌, ◌≡◌, ◌≢◌, refl, ◌∙◌, ◌⊎◌, inl, inr, Bool, true, false, List, [],
  ◌∷◌, none, some, ◌==◌, update, arith, length, Option-cases, Bool-cases, leb,
}
use urn.Mutex.{SharedMutex, lock, lock_shared}
use urn.Relay.Packet.{Packet, sizeof_session_id}
use urn.Relay.Sessions.{find}
use urn.Relay.Logic.Counters.{IsReadable, IsReadable-id}
use urn.Relay.Threads.{
  ThreadLibrary, Call, client_received, peer_received, session_sent, Pc, idle, registering,
  emplacing, inserting, unlocking, restarting, finding, looking, leaving, answering, Shared, table,
  Move, register, no_request, lock_map, key_taken, key_free, insert, unlock_map, restart, look_up,
  too_short, share_map, look, unshare_map, answer, count_sent, System, Step, pick, Reach, start,
  later,
}
use urn.Relay.Threads.Exclusion.{is_exclusive, is_sharing, Held, Reach-Held}

-- The steps that are left of a call, at most.
abbrev pub rank : {Endpoint Session : Type 0} → Pc Endpoint Session → ℕ
rank idle = 0
rank (registering _ _ _) = 5
rank (emplacing _ _ _) = 4
rank (inserting _ _ _) = 3
rank (unlocking _) = 2
rank (restarting _) = 1
rank (finding _ _ _) = 4
rank (looking _ _ _) = 3
rank (leaving _ _) = 2
rank (answering _ _) = 1

-- The steps that are left of the first `n` threads' calls, at most.
abbrev pub work :
    {Endpoint Session : Type 0} → ℕ → (ℕ → Pc Endpoint Session) → (ℕ → List (Call Endpoint)) → ℕ
work zero pc todo = 0
work (suc n) pc todo = work n pc todo + (rank (pc n) + 6 * length (todo n))

abbrev pub AllReadable : {Endpoint : Type 0} → List (Call Endpoint) → Type 0
AllReadable [] = Unit {0}
AllReadable (client_received src p ∷ cs) = IsReadable p × AllReadable cs
AllReadable (peer_received src p ∷ cs) = IsReadable p × AllReadable cs
AllReadable (session_sent p ∷ cs) = AllReadable cs

module _ {Endpoint Session : Type 0} where
  work-outside :
      (n i : ℕ) (pc : ℕ → Pc Endpoint Session) (todo : ℕ → List (Call Endpoint))
      (p : Pc Endpoint Session) (cs : List (Call Endpoint))
      → n ≤ i
      → work n (update pc i p) (update todo i cs) ≡ work n pc todo
  work-outside zero i pc todo p cs h = refl
  work-outside (suc n) i pc todo p cs h =
      ground (arith, work-outside n i pc todo p cs (omega arith))

  work-update :
      (n i : ℕ) (pc : ℕ → Pc Endpoint Session) (todo : ℕ → List (Call Endpoint))
      (p : Pc Endpoint Session) (cs : List (Call Endpoint))
      → i < n
      → rank p + 6 * length cs < rank (pc i) + 6 * length (todo i)
      → work n (update pc i p) (update todo i cs) < work n pc todo
  work-update zero i pc todo p cs lt h = absurd (omega arith)
  work-update (suc n) i pc todo p cs lt h = elim (Bool-cases (i == n)) [
    | inl last ↦ ground (arith, work-outside n i pc todo p cs)
    | inr below ↦ ground (arith, work-update n i pc todo p cs)
  ]

  some_work :
      (n : ℕ) (pc : ℕ → Pc Endpoint Session) (todo : ℕ → List (Call Endpoint))
      → (work n pc todo ≡ 0) ⊎ ((i : ℕ) × (i < n) × (0 < rank (pc i) + 6 * length (todo i)))
  some_work zero pc todo = inl refl
  some_work (suc n) pc todo = elim (some_work n pc todo) [
    | inr (i, lt, h) ↦ inr (i, omega arith, h)
    | inl rest ↦ elim (Bool-cases (rank (pc n) + 6 * length (todo n) == 0)) [
      | inl none_left ↦ inl (ground arith)
      | inr some_left ↦ inr (n, omega arith, ground arith)
    ]
  ]

List-cases : (xs : List ℕ) → (xs ≡ []) ⊎ ((x : ℕ) × (rest : List ℕ) × (xs ≡ x ∷ rest))
List-cases [] = inl refl
List-cases (x ∷ rest) = inr (x, rest, refl)

lock-free :
    (i : ℕ) (m : SharedMutex)
    → m.owner ≡ none
    → m.sharers ≡ []
    → (m' : SharedMutex) × (lock true i m ≡ some m')
unfolding lock
lock-free i m e e' = (record m { owner = some i }, ground (arith, e, e'))

lock_shared-free :
    (i : ℕ) (m : SharedMutex)
    → m.owner ≡ none
    → (m' : SharedMutex) × (lock_shared true i m ≡ some m')
unfolding lock_shared
lock_shared-free i m e = (record m { sharers = i ∷ m.sharers }, rw e refl)

module _ {Endpoint Session World : Type 0} (lib : ThreadLibrary Endpoint Session World) where
  -- With `std::shared_mutex`: while a thread holds the mutex in `try_register_session`, no other
  -- thread is between the lock and the unlock of `try_register_session` or of `find_session`.
  pub Reach-excludes :
      {n : ℕ} {w : ℕ → World} {calls : ℕ → List (Call Endpoint)} {s : System lib}
      → Reach lib true n w calls s
      → (i j : ℕ) → i ≢ j
      → is_exclusive (s.pc i) ≡ true
      → (is_exclusive (s.pc j) ≡ false) × (is_sharing (s.pc j) ≡ false)
  Reach-excludes {s} r i j ne h =
      let held = Reach-Held lib r in
      let mine = held.owned i h in
      (ground (arith, held.owned j), held.sharers j ∙ rw (held.apart i mine) refl)

  abbrev Next : ℕ → Shared lib → Pc Endpoint Session → List (Call Endpoint) → Type 0
  Next i m p cs =
      (m' : Shared lib) × (p' : Pc Endpoint Session) × (cs' : List (Call Endpoint)) × Move lib true
        i m p cs m' p' cs'

  Move-rank :
      {multi : Bool} {i : ℕ} {m m' : Shared lib} {p p' : Pc Endpoint Session}
      {cs cs' : List (Call Endpoint)}
      → Move lib multi i m p cs m' p' cs'
      → rank p' + 6 * length cs' < rank p + 6 * length cs
  Move-rank (register _ _ _) = omega arith
  Move-rank mv = omega arith

  Step-work :
      {multi : Bool} {n : ℕ} {s s' : System lib}
      → Step lib multi n s s'
      → work n s'.pc s'.todo < work n s.pc s.todo
  Step-work {n} {s} (pick i {q} {cs} lt mv) = work-update n i s.pc s.todo q cs lt (Move-rank mv)

  -- What holds the mutex can go on.
  holder-Next :
      (i : ℕ) (m : Shared lib) (p : Pc Endpoint Session) (cs : List (Call Endpoint))
      → (is_exclusive p ≡ true) ⊎ (is_sharing p ≡ true)
      → Next i m p cs
  holder-Next i m (emplacing src p id) cs h = elim (Option-cases (find id (table lib m))) [
    | inl free ↦ (_, _, _, key_free free)
    | inr (x, taken) ↦ (_, _, _, key_taken taken)
  ]
  holder-Next i m (inserting src p id) cs h = (_, _, _, insert)
  holder-Next i m (unlocking added) cs h = (_, _, _, unlock_map)
  holder-Next i m (looking src p id) cs h = (_, _, _, look)
  holder-Next i m (leaving p found) cs h = (_, _, _, unshare_map)
  holder-Next i m p cs h = absurd (ground arith)

  -- A thread between two calls can begin the next one.
  idle-Next :
      (i : ℕ) (m : Shared lib) (c : Call Endpoint) (cs : List (Call Endpoint))
      → AllReadable (c ∷ cs)
      → Next i m idle (c ∷ cs)
  idle-Next i m (client_received src p) cs (r, rs) =
      elim (Bool-cases (p.length == sizeof_session_id)) [
        | inl eight ↦
            let e : p.length ≡ sizeof_session_id = ground arith in
            let (id, named) = IsReadable-id p r (omega arith) in (_, _, _, register r e named)
        | inr other ↦ (_, _, _, no_request r (ground arith))
      ]
  idle-Next i m (peer_received src p) cs (r, rs) =
      elim (Bool-cases (leb sizeof_session_id p.length)) [
        | inl long ↦
            let e : sizeof_session_id ≤ p.length = ground arith in
            let (id, named) = IsReadable-id p r e in (_, _, _, look_up r e named)
        | inr short ↦ (_, _, _, too_short r (ground arith))
      ]
  idle-Next i m (session_sent p) cs r = (_, _, _, count_sent)

  -- What holds throughout a run besides `Held`.
  record Runs (n : ℕ) (s : System lib) : Type 0 where
    held : Held s.shared.mutex s.pc
    others_idle : (i : ℕ) → n ≤ i → s.pc i ≡ idle
    readable : (i : ℕ) → AllReadable (s.todo i)

  Move-AllReadable :
      {i : ℕ} {m m' : Shared lib} {p p' : Pc Endpoint Session} {cs cs' : List (Call Endpoint)}
      → Move lib true i m p cs m' p' cs'
      → AllReadable cs
      → AllReadable cs'
  Move-AllReadable (register _ _ _) (r, rs) = rs
  Move-AllReadable (no_request _ _) (r, rs) = rs
  Move-AllReadable (look_up _ _ _) (r, rs) = rs
  Move-AllReadable (too_short _ _) (r, rs) = rs
  Move-AllReadable mv rs = rs

  Reach-Runs :
      {n : ℕ} {w : ℕ → World} {calls : ℕ → List (Call Endpoint)} {s : System lib}
      → ((i : ℕ) → AllReadable (calls i))
      → Reach lib true n w calls s
      → Runs n s
  Reach-Runs {n} {w} {calls} all start = record {
    held = Reach-Held lib {n = n} {w = w} {calls = calls} start;
    others_idle = λ i h. refl;
    readable = all;
  }
  Reach-Runs {n} all (later {s} r (pick i {q} {cs} lt mv)) =
      let prior = Reach-Runs all r in
      record {
        held = Reach-Held lib (later r (pick i lt mv));
        others_idle = λ j h. ground (arith, prior.others_idle j h);
        readable = λ j. elim (Bool-cases (i == j)) [
          | inl here ↦ rw here (Move-AllReadable mv (prior.readable i))
          | inr there ↦ rw there (prior.readable j)
        ];
      }

  module _ {n : ℕ} {s : System lib} (runs : Runs n s) where
    open runs use {held, others_idle, readable}

    abbrev Enabled : Type 0
    Enabled = (i : ℕ) × (i < n) × Next i s.shared (s.pc i) (s.todo i)

    holder-Enabled :
        (j : ℕ) → (is_exclusive (s.pc j) ≡ true) ⊎ (is_sharing (s.pc j) ≡ true) → Enabled
    holder-Enabled j h =
        (j, ground (arith, others_idle j), holder-Next j s.shared (s.pc j) (s.todo j) h)

    -- A thread that waits for the exclusive lock, or for a share of it, or some thread in its way.
    register-Enabled :
        (i : ℕ) (src : Endpoint) (p : Packet) (id : ℕ)
        → i < n
        → s.pc i ≡ registering src p id
        → Enabled
    register-Enabled i src p id lt here = elim (Option-cases s.shared.mutex.owner) [
      | inr (j, owner) ↦ holder-Enabled j (inl (held.owner j owner))
      | inl free ↦ elim (List-cases s.shared.mutex.sharers) [
        | inr (j, rest, sharers) ↦
            holder-Enabled j (inr (held.sharers j ∙ rw sharers (ground arith)))
        | inl none_shares ↦
            (i, lt, rw here (_, _, _, lock_map (lock-free i s.shared.mutex free none_shares).1))
      ]
    ]

    find-Enabled :
        (i : ℕ) (src : Endpoint) (p : Packet) (id : ℕ) → i < n → s.pc i ≡ finding src p id → Enabled
    find-Enabled i src p id lt here = elim (Option-cases s.shared.mutex.owner) [
      | inr (j, owner) ↦ holder-Enabled j (inl (held.owner j owner))
      | inl free ↦ (i, lt, rw here (_, _, _, share_map (lock_shared-free i s.shared.mutex free).1))
    ]

    thread-Enabled :
        (i : ℕ) (p : Pc Endpoint Session) (cs : List (Call Endpoint))
        → i < n
        → s.pc i ≡ p
        → s.todo i ≡ cs
        → 0 < rank p + 6 * length cs
        → Enabled
    thread-Enabled i idle [] lt here calls h = absurd (omega arith)
    thread-Enabled i idle (c ∷ cs) lt here calls h =
        (i, lt, rw (here, calls) (idle-Next i s.shared c cs (rw calls at (readable i))))
    thread-Enabled i (registering src p id) cs lt here calls h = register-Enabled i src p id lt here
    thread-Enabled i (finding src p id) cs lt here calls h = find-Enabled i src p id lt here
    thread-Enabled i (restarting added) cs lt here calls h = (i, lt, rw here (_, _, _, restart))
    thread-Enabled i (answering p found) cs lt here calls h = (i, lt, rw here (_, _, _, answer))
    thread-Enabled i p cs lt here calls h = holder-Enabled i (ground (here, arith))

  -- With `std::shared_mutex` and calls whose packets can be read, from any state that `n` threads reach:
  -- every step leaves less of the calls to do, whichever thread takes it; and as long as anything
  -- is left, in a call that has begun or in one that has not, some thread can take a step. So no run
  -- deadlocks, and every run ends when all calls have returned.
  pub Reach-runs_on :
      {n : ℕ} {w : ℕ → World} {calls : ℕ → List (Call Endpoint)} {s : System lib}
      → ((i : ℕ) → AllReadable (calls i))
      → Reach lib true n w calls s
      → ((s' : System lib) → Step lib true n s s' → work n s'.pc s'.todo < work n s.pc s.todo)
        × ((work n s.pc s.todo ≡ 0) ⊎ ((s' : System lib) × Step lib true n s s'))
  Reach-runs_on {n} {s} all r = (
    λ s' st. Step-work st,
    elim (some_work n s.pc s.todo) [
      | inl done ↦ inl done
      | inr (i, lt, h) ↦
          let (j, lt', (m, p, cs, mv)) =
            thread-Enabled (Reach-Runs all r) i (s.pc i) (s.todo i) lt refl refl h in
          inr (_, pick j lt' mv)
    ],
  )
