-- ===== src/Relay/Threads/Linear.antt =====
-- urn/relay.hpp with several threads: whatever the interleaving, the calls take effect one after the other.
pub mod Advance
pub mod Commits
pub mod Moves
pub mod Reached
use urn.Prelude.{
  ℕ, ◌<◌, ◌≤◌, ◌≡◌, ◌≢◌, Bool, List, [], ◌∷◌, ◌++◌, Option, none, some, ok, ◌==◌, if◌then◌else◌,
  map,
}
use urn.Relay.Packet.{Packet, sizeof_session_id, get_session_id}
use urn.Relay.Sessions.{find}
use urn.Relay.Logic.{State, init, count_in}
use urn.Relay.Logic.Counters.{IsReadable, counted, threads}
use urn.Relay.Threads.{
  ThreadLibrary, Call, client_received, peer_received, acts, Pc, idle, registering, emplacing,
  inserting, unlocking, restarting, finding, looking, leaving, answering, client_restarted,
  peer_answered, Shared, table, System,
}
use urn.Relay.Threads.Whole.{Same}

-- The calls that one thread makes in a history.
abbrev pub calls_of : {Endpoint : Type 0} → ℕ → List (ℕ × Call Endpoint) → List (Call Endpoint)
calls_of i [] = []
calls_of i ((j, c) ∷ es) = if i == j then c ∷ calls_of i es else calls_of i es

-- The packet asks for the identifier.
pub record Asks (p : Packet) (id : ℕ) : Type 0 where
  pub readable : IsReadable p
  pub eight : p.length ≡ sizeof_session_id
  pub asked : get_session_id p.content ≡ ok id

pub record Addresses (p : Packet) (id : ℕ) : Type 0 where
  pub readable : IsReadable p
  pub long : sizeof_session_id ≤ p.length
  pub addressed : get_session_id p.content ≡ ok id

module _ {Endpoint Session : Type 0} where
  -- The call that a thread has begun and that has not taken effect.
  abbrev pub begun : Pc Endpoint Session → List (Call Endpoint)
  begun (registering src p id) = client_received src p ∷ []
  begun (emplacing src p id) = client_received src p ∷ []
  begun (inserting src p id) = client_received src p ∷ []
  begun (finding src p id) = peer_received src p ∷ []
  begun (looking src p id) = peer_received src p ∷ []
  begun _ = []

  -- What a thread's locals say of its packet and of the map.
  abbrev pub Fits : List (ℕ × Session) → Pc Endpoint Session → Type 0
  Fits xs (registering src p id) = Asks p id
  Fits xs (emplacing src p id) = Asks p id
  Fits xs (inserting src p id) = Asks p id × (find id xs ≡ none)
  Fits xs (finding src p id) = Addresses p id
  Fits xs (looking src p id) = Addresses p id
  Fits xs _ = Unit {0}

module _ {Endpoint Session World : Type 0} (lib : ThreadLibrary Endpoint Session World) where
  -- Thread `i` in the interleaved state `a` and in `b`, where the calls that have taken effect were made as a
  -- whole: before its call takes effect the thread is ahead of `b`, and after that behind it.
  abbrev pub Sync :
      ℕ → Pc Endpoint Session → State Session (ℕ → World) → State Session (ℕ → World) → Type 0
  Sync i idle a b = Same i a b
  Sync i (registering src p id) a b = Same i a (counted i (count_in p) b)
  Sync i (emplacing src p id) a b = Same i a (counted i (count_in p) b)
  Sync i (inserting src p id) a b = Same i a (counted i (count_in p) b)
  Sync i (unlocking added) a b = Same i (client_restarted lib i added a) b
  Sync i (restarting added) a b = Same i (client_restarted lib i added a) b
  Sync i (finding src p id) a b = Same i a (counted i (count_in p) b)
  Sync i (looking src p id) a b = Same i a (counted i (count_in p) b)
  Sync i (leaving p found) a b = Same i (peer_answered lib i p found a) b
  Sync i (answering p found) a b = Same i (peer_answered lib i p found a) b

  -- A history of whole calls that explains an interleaved state.
  pub record Linear (n : ℕ) (w : ℕ → World) (calls : ℕ → List (Call Endpoint)) (s : System lib)
      : Type 0 where
    pub history : List (ℕ × Call Endpoint)
    pub result : State Session (ℕ → World)
    pub runs : acts lib history (record { relay = init n; world = w }) ≡ ok result
    pub order : (i : ℕ) → calls_of i history ++ (begun (s.pc i) ++ s.todo i) ≡ calls i
    pub tables : (id : ℕ) → find id (table lib s.shared) ≡ find id result.relay.sessions
    pub sync : (i : ℕ) → Sync i (s.pc i) s.shared.state result
    pub fits : (i : ℕ) → Fits (table lib s.shared) (s.pc i)
    pub width : (threads s.shared.state ≡ n) × (threads result ≡ n)
