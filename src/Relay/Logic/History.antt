-- ===== src/Relay/Logic/History.antt =====
-- Histories of calls of the handlers of urn/relay.hpp, on any threads and in any order. A call is one
-- step; that interleaved calls on several threads amount to such a history is shown in Relay/Threads.
pub mod Table
pub mod Received
pub mod Forwards
use urn.Prelude.{ℕ, ◌≡◌, ◌<◌, Bool, List, [], ◌∷◌, Option, none, some, Outcome, ok, ◌>>=◌, map}
use urn.Relay.Packet.{Packet}
use urn.Relay.Statistics.{Direction, Doubles}
use urn.Relay.Logic.{
  Tls, State, Library, on_client_received, on_peer_received, on_session_sent, on_statistics_tick,
}
use urn.Relay.Logic.Counters.{IsStarted, IsReadable}

pub data Event (Endpoint : Type 0) : Type 0 where
  client_received : Tls → Endpoint → Packet → Event Endpoint
  peer_received : Tls → Endpoint → Packet → Event Endpoint
  session_sent : Tls → Packet → Event Endpoint
  statistics_tick : ℕ → Event Endpoint

-- What a call needs: a started thread, and a packet whose bytes can be read.
abbrev pub IsProper : {Endpoint : Type 0} → ℕ → Event Endpoint → Type 0
IsProper n (client_received tls src p) = ((i : ℕ) × IsStarted i n tls) × IsReadable p
IsProper n (peer_received tls src p) = ((i : ℕ) × IsStarted i n tls) × IsReadable p
IsProper n (session_sent tls p) = (i : ℕ) × IsStarted i n tls
IsProper n (statistics_tick interval) = 0 < interval

abbrev pub AllProper : {Endpoint : Type 0} → ℕ → List (Event Endpoint) → Type 0
AllProper n [] = Unit {0}
AllProper n (e ∷ es) = IsProper n e × AllProper n es

module _ {Session World : Type 0} where
  -- The receive counters of all threads.
  abbrev pub received : State Session World → List Direction
  received st = map (λ s. s.ingress) st.relay.per_thread_statistics

-- What a relay relies on in a library: sending leaves the session map and the receive counters
-- alone. Each library in this repository proves it of its own `start_send`.
pub record SendLaws {Endpoint Session World : Type 0} (lib : Library Endpoint Session World)
    : Type 0 where
  pub keeps_sessions :
      (tls : Tls) (x : Session) (p : Packet) (st st' : State Session World)
      → lib.start_send tls x p st ≡ ok st'
      → st'.relay.sessions ≡ st.relay.sessions
  pub keeps_received :
      (tls : Tls) (x : Session) (p : Packet) (st st' : State Session World)
      → lib.start_send tls x p st ≡ ok st'
      → received st' ≡ received st

module _ {Endpoint Session World : Type 0} (lib : Library Endpoint Session World)
    (d : Doubles) where
  unfoldable pub handle : Event Endpoint → State Session World → Outcome (State Session World)
  handle (client_received tls src p) st = on_client_received lib tls src p st
  handle (peer_received tls src p) st = do (_, st') ← on_peer_received lib tls src p st; ok st'
  handle (session_sent tls p) st = on_session_sent lib tls p st
  handle (statistics_tick interval) st = do (_, st') ← on_statistics_tick d interval st; ok st'

  unfoldable pub run : List (Event Endpoint) → State Session World → Outcome (State Session World)
  run [] st = ok st
  run (e ∷ es) st = do st' ← handle e st; run es st'
