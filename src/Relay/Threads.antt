-- ===== src/Relay/Threads.antt =====
-- urn/relay.hpp with several threads: the handlers cut at the lock and the unlock of
-- `sessions_mutex_`, so that other threads run in between. A thread makes the calls of its own list, in order;
-- its own statistics and its part of the library's world are touched by no other thread. `try_emplace`
-- looks for the key in one step and adds the node in another.
pub mod Exclusion
pub mod Progress
pub mod Whole
pub mod Linear
mod Examples
use urn.Prelude.{
  ℕ, ◌+◌, ◌≤◌, ◌<◌, ◌≡◌, ◌≢◌, Bool, true, false, List, [], ◌∷◌, ◌++◌, Option, none, some, Outcome,
  ok, ◌>>=◌, if◌then◌else◌, update,
}
use urn.Mutex.{SharedMutex, unlocked, lock, unlock, lock_shared, unlock_shared}
use urn.Relay.Packet.{Packet, sizeof_session_id, get_session_id}
use urn.Relay.Statistics.{Statistics}
use urn.Relay.Sessions.{find}
use urn.Relay.Logic.{
  State, Library, init, count_in, count_out, restart_peer, restart_client, on_client_received,
  on_peer_received, on_session_sent,
}
use urn.Relay.Logic.Counters.{IsReadable, counted}

-- A library whose calls stay within the calling thread: `start_send` changes the thread's world, and its own
-- statistics where the library calls `on_session_sent` at once.
pub record ThreadLibrary (Endpoint Session World : Type 0) : Type 0 where
  pub make_session : Endpoint → Session
  pub client_start_receive : World → World
  pub peer_start_receive : World → World
  pub send : Session → Packet → World → World
  pub send_counts : Session → Packet → Statistics → Statistics

pub data Call (Endpoint : Type 0) : Type 0 where
  client_received : Endpoint → Packet → Call Endpoint
  peer_received : Endpoint → Packet → Call Endpoint
  session_sent : Packet → Call Endpoint

-- Where a thread stands: between two calls; in `try_register_session` before the lock, before and after
-- the look for the key, and before the unlock; behind it; and likewise in `find_session`.
pub data Pc (Endpoint Session : Type 0) : Type 0 where
  idle : Pc Endpoint Session
  registering emplacing inserting : Endpoint → Packet → ℕ → Pc Endpoint Session
  unlocking restarting : Bool → Pc Endpoint Session
  finding looking : Endpoint → Packet → ℕ → Pc Endpoint Session
  leaving answering : Packet → Option Session → Pc Endpoint Session

module _ {Endpoint Session World : Type 0} (lib : ThreadLibrary Endpoint Session World) where
  abbrev pub sent : ℕ → Session → Packet → State Session (ℕ → World) → State Session (ℕ → World)
  sent i x p st = record (counted i (lib.send_counts x p) st) {
    world = update st.world i (lib.send x p (st.world i));
  }

  -- The library as one thread sees it.
  abbrev pub on_thread : ℕ → Library Endpoint Session (ℕ → World)
  on_thread i = record {
    make_session = lib.make_session;
    client_start_receive = λ w. update w i (lib.client_start_receive (w i));
    peer_start_receive = λ w. update w i (lib.peer_start_receive (w i));
    start_send = λ tls x p st. ok (sent i x p st);
  }

  -- The call as a whole.
  unfoldable pub act :
      ℕ → Call Endpoint → State Session (ℕ → World) → Outcome (State Session (ℕ → World))
  act i (client_received src p) st = on_client_received (on_thread i) (some i) src p st
  act i (peer_received src p) st = do
    (_, st') ← on_peer_received (on_thread i) (some i) src p st
    ok st'
  act i (session_sent p) st = on_session_sent (on_thread i) (some i) p st

  -- Whole calls, one after the other.
  unfoldable pub acts :
      List (ℕ × Call Endpoint) → State Session (ℕ → World) → Outcome (State Session (ℕ → World))
  acts [] st = ok st
  acts ((i, c) ∷ cs) st = do st' ← act i c st; acts cs st'

  pub record Shared : Type 0 where
    pub state : State Session (ℕ → World)
    pub mutex : SharedMutex

  abbrev pub table : Shared → List (ℕ × Session)
  table m = m.state.relay.sessions

  abbrev pub with_sessions : List (ℕ × Session) → Shared → Shared
  with_sessions xs m = record m {
    state = record (m.state) { relay = record (m.state.relay) { sessions = xs } };
  }

  -- The end of `on_client_received`.
  abbrev pub client_restarted : ℕ → Bool → State Session (ℕ → World) → State Session (ℕ → World)
  client_restarted i added st =
      restart_client (on_thread i) (if added then restart_peer (on_thread i) st else st)

  -- The end of `on_peer_received`.
  abbrev pub peer_answered :
      ℕ → Packet → Option Session → State Session (ℕ → World) → State Session (ℕ → World)
  peer_answered i p none st = restart_peer (on_thread i) st
  peer_answered i p (some x) st = sent i x p st

  -- One step of thread `i`, with the calls that it has not begun.
  pub data Move (multi : Bool) (i : ℕ) (m : Shared)
      : Pc Endpoint Session
        → List (Call Endpoint)
        → Shared
        → Pc Endpoint Session
        → List (Call Endpoint)
        → Type 0 where
    register :
        {src : Endpoint} {p : Packet} {id : ℕ} {cs : List (Call Endpoint)}
        → IsReadable p
        → p.length ≡ sizeof_session_id
        → get_session_id p.content ≡ ok id
        → Move multi i m idle
            (client_received src p ∷ cs)
            (record m { state = counted i (count_in p) m.state })
            (registering src p id)
            cs
    no_request :
        {src : Endpoint} {p : Packet} {cs : List (Call Endpoint)}
        → IsReadable p
        → p.length ≢ sizeof_session_id
        → Move multi i m idle
            (client_received src p ∷ cs)
            (record m { state = counted i (count_in p) m.state })
            (restarting false)
            cs
    lock_map :
        {src : Endpoint} {p : Packet} {id : ℕ} {cs : List (Call Endpoint)} {mutex : SharedMutex}
        → lock multi i m.mutex ≡ some mutex
        → Move multi i m
            (registering src p id)
            cs
            (record m { mutex = mutex })
            (emplacing src p id)
            cs
    key_taken :
        {src : Endpoint} {p : Packet} {id : ℕ} {cs : List (Call Endpoint)} {x : Session}
        → find id (table m) ≡ some x
        → Move multi i m (emplacing src p id) cs m (unlocking false) cs
    key_free :
        {src : Endpoint} {p : Packet} {id : ℕ} {cs : List (Call Endpoint)}
        → find id (table m) ≡ none
        → Move multi i m (emplacing src p id) cs m (inserting src p id) cs
    insert :
        {src : Endpoint} {p : Packet} {id : ℕ} {cs : List (Call Endpoint)}
        → Move multi i m
            (inserting src p id)
            cs
            (with_sessions ((id, lib.make_session src) ∷ table m) m)
            (unlocking true)
            cs
    unlock_map :
        {added : Bool} {cs : List (Call Endpoint)}
        → Move multi i m
            (unlocking added)
            cs
            (record m { mutex = unlock multi i m.mutex })
            (restarting added)
            cs
    restart :
        {added : Bool} {cs : List (Call Endpoint)}
        → Move multi i m
            (restarting added)
            cs
            (record m { state = client_restarted i added m.state })
            idle
            cs
    look_up :
        {src : Endpoint} {p : Packet} {id : ℕ} {cs : List (Call Endpoint)}
        → IsReadable p
        → sizeof_session_id ≤ p.length
        → get_session_id p.content ≡ ok id
        → Move multi i m idle
            (peer_received src p ∷ cs)
            (record m { state = counted i (count_in p) m.state })
            (finding src p id)
            cs
    too_short :
        {src : Endpoint} {p : Packet} {cs : List (Call Endpoint)}
        → IsReadable p
        → p.length < sizeof_session_id
        → Move multi i m idle
            (peer_received src p ∷ cs)
            (record m { state = counted i (count_in p) m.state })
            (answering p none)
            cs
    share_map :
        {src : Endpoint} {p : Packet} {id : ℕ} {cs : List (Call Endpoint)} {mutex : SharedMutex}
        → lock_shared multi i m.mutex ≡ some mutex
        → Move multi i m (finding src p id) cs (record m { mutex = mutex }) (looking src p id) cs
    look :
        {src : Endpoint} {p : Packet} {id : ℕ} {cs : List (Call Endpoint)}
        → Move multi i m (looking src p id) cs m (leaving p (find id (table m))) cs
    unshare_map :
        {p : Packet} {found : Option Session} {cs : List (Call Endpoint)}
        → Move multi i m
            (leaving p found)
            cs
            (record m { mutex = unlock_shared multi i m.mutex })
            (answering p found)
            cs
    answer :
        {p : Packet} {found : Option Session} {cs : List (Call Endpoint)}
        → Move multi i m
            (answering p found)
            cs
            (record m { state = peer_answered i p found m.state })
            idle
            cs
    count_sent :
        {p : Packet} {cs : List (Call Endpoint)}
        → Move multi i m idle
            (session_sent p ∷ cs)
            (record m { state = restart_peer (on_thread i) (counted i (count_out p) m.state) })
            idle
            cs

  pub record System : Type 0 where
    pub shared : Shared
    pub pc : ℕ → Pc Endpoint Session
    pub todo : ℕ → List (Call Endpoint)

  -- Any of the `n` threads takes the next step.
  pub data Step (multi : Bool) (n : ℕ) (s : System) : System → Type 0 where
    pick :
        (i : ℕ) {m : Shared} {q : Pc Endpoint Session} {cs : List (Call Endpoint)}
        → i < n
        → Move multi i s.shared (s.pc i) (s.todo i) m q cs
        → Step multi n s (record { shared = m; pc = update s.pc i q; todo = update s.todo i cs })

  abbrev pub begin : ℕ → (ℕ → World) → (ℕ → List (Call Endpoint)) → System
  begin n w calls = record {
    shared = record { state = record { relay = init n; world = w }; mutex = unlocked };
    pc = λ i. idle;
    todo = calls;
  }

  pub data Reach (multi : Bool) (n : ℕ) (w : ℕ → World) (calls : ℕ → List (Call Endpoint))
      : System → Type 0 where
    start : Reach multi n w calls (begin n w calls)
    later : {s s' : System} → Reach multi n w calls s → Step multi n s s' → Reach multi n w calls s'
