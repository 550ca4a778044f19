-- ===== src/Relay/Threads/Examples.antt =====
-- The theorems about urn/relay.hpp with several threads at concrete inputs: two clients ask for identifier 1 on
-- two threads at once. A thread's world is the list of what it sent.
use urn.Prelude.{
  ℕ, zero, suc, ◌<◌, ◌≡◌, ◌⊎◌, refl, Bool, true, false, List, [], ◌∷◌, some, ok, update, arith,
}
use urn.Mutex.{unlocked, lock, unlock}
use urn.Relay.Packet.{Packet, write_le, get_session_id}
use urn.Relay.Packet.Laws.{get_session_id-write_le}
use urn.Relay.Sessions.{find}
use urn.Relay.Logic.{init, count_in}
use urn.Relay.Logic.Counters.{counted}
use urn.Relay.Threads.{
  ThreadLibrary, Call, client_received, Pc, registering, emplacing, inserting, unlocking,
  restarting, Shared, table, with_sessions, register, lock_map, key_free, insert, unlock_map,
  System, Step, pick, begin, Reach, start, later,
}
use urn.Relay.Threads.Exclusion.{is_exclusive, is_sharing}
use urn.Relay.Threads.Progress.{AllReadable, work, Reach-excludes, Reach-runs_on}
use urn.Relay.Threads.Linear.{Linear}
use urn.Relay.Threads.Linear.Reached.{Reach-Linear, Steps, none_yet, one_more, Steps-find}

abbrev test_lib : ThreadLibrary ℕ ℕ (List ℕ)
test_lib = record {
  make_session = λ src. src;
  client_start_receive = λ w. w;
  peer_start_receive = λ w. w;
  send = λ session p w. session ∷ w;
  send_counts = λ session p s. s;
}

abbrev request : Packet
request = record { address = 0; content = write_le 8 1; length = 8 }

request_id : get_session_id request.content ≡ ok 1
unfolding write_le
request_id = get_session_id-write_le 1 [] (omega arith)

-- One call on each of two threads.
abbrev calls : ℕ → List (Call ℕ)
calls zero = client_received 11 request ∷ []
calls (suc zero) = client_received 22 request ∷ []
calls (suc (suc i)) = []

abbrev quiet_world : ℕ → List ℕ
quiet_world i = []

abbrev picked : System test_lib → ℕ → Shared test_lib → Pc ℕ ℕ → List (Call ℕ) → System test_lib
picked s i m q cs = record { shared = m; pc = update s.pc i q; todo = update s.todo i cs }

abbrev counted_by : ℕ → System test_lib → Shared test_lib
counted_by i s = record (s.shared) { state = counted i (count_in request) s.shared.state }

-- Both threads are in front of the lock.
abbrev first_counted : System test_lib
first_counted =
    let s = begin test_lib 2 quiet_world calls in
    picked s 0 (counted_by 0 s) (registering 11 request 1) []

abbrev both_counted : System test_lib
both_counted = picked first_counted 1 (counted_by 1 first_counted) (registering 22 request 1) []

both_counted-Reach : (multi : Bool) → Reach test_lib multi 2 quiet_world calls both_counted
unfolding write_le
both_counted-Reach multi =
    later (later start (pick 0 (omega arith) (register (omega arith) refl request_id)))
      (pick 1 (omega arith) (register (omega arith) refl request_id))

-- Thread 0 has the lock, and thread 1 waits.
abbrev held : System test_lib
held =
    picked both_counted 0
      (record (both_counted.shared) { mutex = record { owner = some 0; sharers = [] } })
      (emplacing 11 request 1) []

held-Reach : Reach test_lib true 2 quiet_world calls held
unfolding lock
held-Reach = later (both_counted-Reach true) (pick 0 (omega arith) (lock_map refl))

-- Thread 0 has found no session, and has then added its own.
abbrev looked : System test_lib
looked = picked held 0 held.shared (inserting 11 request 1) []

abbrev inserted : System test_lib
inserted = picked looked 0 (with_sessions test_lib ((1, 11) ∷ []) looked.shared) (unlocking true) []

inserted-Reach : Reach test_lib true 2 quiet_world calls inserted
unfolding init find
inserted-Reach =
    later (later held-Reach (pick 0 (omega arith) (key_free refl))) (pick 0 (omega arith) insert)

Reach-excludes_example : (is_exclusive (held.pc 1) ≡ false) × (is_sharing (held.pc 1) ≡ false)
Reach-excludes_example = Reach-excludes test_lib held-Reach 0 1 (omega arith) refl

calls_readable : (i : ℕ) → AllReadable (calls i)
unfolding write_le
calls_readable zero = (omega arith, tt)
calls_readable (suc zero) = (omega arith, tt)
calls_readable (suc (suc i)) = tt

Reach-runs_on_example :
    ((s' : System test_lib)
      → Step test_lib true 2 held s'
      → work 2 s'.pc s'.todo < work 2 held.pc held.todo)
    × ((work 2 held.pc held.todo ≡ 0) ⊎ ((s' : System test_lib) × Step test_lib true 2 held s'))
Reach-runs_on_example = Reach-runs_on test_lib calls_readable held-Reach

Reach-Linear_example : Linear test_lib 2 quiet_world calls inserted
Reach-Linear_example = Reach-Linear test_lib inserted-Reach

-- After the unlock, thread 1 finds the identifier taken.
abbrev released : System test_lib
released = picked inserted 0 (record (inserted.shared) { mutex = unlocked }) (restarting true) []

inserted-released : Steps test_lib 2 inserted released
unfolding unlock
inserted-released = one_more none_yet (pick 0 (omega arith) unlock_map)

Steps-find_example : find 1 (table test_lib released.shared) ≡ some 11
unfolding find
Steps-find_example = Steps-find test_lib 1 inserted-Reach inserted-released refl

-- With `shared_mutex<false>`, whose calls do nothing, both threads find no session for the same identifier, and
-- both add one.
both_inserting :
    (s : System test_lib) × Reach test_lib false 2 quiet_world calls s
    × (is_exclusive (s.pc 0) ≡ true)
    × (is_exclusive (s.pc 1) ≡ true)
    × (table test_lib s.shared ≡ (1, 22) ∷ (1, 11) ∷ [])
unfolding lock init find
both_inserting = (
  _,
  later
      (later
        (later
          (later
            (later (later (both_counted-Reach false) (pick 0 (omega arith) (lock_map refl)))
              (pick 1 (omega arith) (lock_map refl)))
            (pick 0 (omega arith) (key_free refl)))
          (pick 1 (omega arith) (key_free refl)))
        (pick 0 (omega arith) insert))
      (pick 1 (omega arith) insert),
  refl,
  refl,
  refl,
)
