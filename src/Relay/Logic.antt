-- ===== src/Relay/Logic.antt =====
-- urn/relay.hpp: the handlers of `urn::relay`, over a library that is a parameter (README.md,
-- "Library should provide following API"). A state is the relay's members and the library's world; a
-- handler runs on a thread whose `this_thread_statistics_` is the argument `tls`.
pub mod Counters
pub mod Registration
pub mod Reports
pub mod Forwarding
pub mod Routing
pub mod Quiet
pub mod History
use urn.Prelude.{
  ℕ, Bool, true, false, List, [], ◌∷◌, Option, none, some, ltb, leb, ◌==◌, if◌then◌else◌, get_elem?,
  set, length, replicate, Outcome, ok, fault, ◌>>=◌, ◌>>◌, ensure, null_deref, out_of_bounds,
  uncaught,
}
use urn.Relay.Packet.{Packet, sizeof_session_id, get_session_id}
use urn.Relay.Statistics.{Statistics, no_statistics, update_io_statistics, Doubles}
use urn.Relay.Rate.{Report}
use urn.Relay.Rate
use urn.Relay.Sessions.{find, try_emplace}

-- `this_thread_statistics_`: the index into `per_thread_statistics_`, `none` for a null pointer.
abbrev pub Tls : Type 0
Tls = Option ℕ

pub record Relay (Session : Type 0) : Type 0 where
  pub sessions : List (ℕ × Session)
  pub per_thread_statistics : List Statistics

pub record State (Session World : Type 0) : Type 0 where
  pub relay : Relay Session
  pub world : World

-- What a library provides. `start_send` may call back into the relay.
pub record Library (Endpoint Session World : Type 0) : Type 0 where
  pub make_session : Endpoint → Session
  pub client_start_receive : World → World
  pub peer_start_receive : World → World
  pub start_send : Tls → Session → Packet → State Session World → Outcome (State Session World)

unfoldable pub init : {Session : Type 0} → ℕ → Relay Session
init thread_count = record {
  sessions = [];
  per_thread_statistics = replicate thread_count no_statistics;
}

unfoldable pub count_in : Packet → Statistics → Statistics
count_in packet s = record s { ingress = update_io_statistics s.ingress packet.length }

unfoldable pub count_out : Packet → Statistics → Statistics
count_out packet s = record s { egress = update_io_statistics s.egress packet.length }

-- `per_thread_statistics_.at(thread_index)` throws out of range.
unfoldable pub on_thread_start : {Session : Type 0} → Relay Session → ℕ → Outcome Tls
on_thread_start r thread_index = do
  ensure (ltb thread_index (length r.per_thread_statistics)) uncaught
  ok (some thread_index)

unfoldable pub update_entry :
    ℕ → (Statistics → Statistics) → List Statistics → Outcome (List Statistics)
update_entry i f xs = elim (get_elem? xs i) [
  | none ↦ fault out_of_bounds
  | some s ↦ ok (set xs i (f s))
]

module _ {Session World : Type 0} where
  -- `update_io_statistics(this_thread_statistics_->…, packet)`
  unfoldable pub update_this_thread :
      Tls → (Statistics → Statistics) → State Session World → Outcome (State Session World)
  unfolding update_entry
  update_this_thread none f st = fault null_deref
  update_this_thread (some i) f st = do
    entries ← update_entry i f st.relay.per_thread_statistics
    ok (record st { relay = record (st.relay) { per_thread_statistics = entries } })

  unfoldable pub find_session : ℕ → State Session World → Option Session
  find_session id st = find id st.relay.sessions

  -- `receive_peer_data`: the session that a peer's packet names, and the statistics updated.
  unfoldable pub receive_peer_data :
      Tls → Packet → State Session World → Outcome (Option Session × State Session World)
  unfolding update_this_thread find_session count_in
  receive_peer_data tls packet st = do
    st ← update_this_thread tls (count_in packet) st
    if leb sizeof_session_id packet.length
        then (do id ← get_session_id packet.content; ok (find_session id st, st))
        else ok (none, st)

  unfoldable pub on_statistics_tick :
      Doubles → ℕ → State Session World → Outcome (Report × State Session World)
  on_statistics_tick d interval st = do
    (entries, report) ← Rate.print_statistics d st.relay.per_thread_statistics interval
    ok (report, record st { relay = record (st.relay) { per_thread_statistics = entries } })

  -- `on_session_sent`, for a library whose `peer_.start_receive()` is the first argument.
  abbrev pub on_session_sent_with :
      (State Session World → State Session World)
      → Tls
      → Packet
      → State Session World
      → Outcome (State Session World)
  on_session_sent_with restart tls packet st = do
    st ← update_this_thread tls (count_out packet) st
    ok (restart st)

module _ {Endpoint Session World : Type 0} (lib : Library Endpoint Session World) where
  open lib use {make_session, client_start_receive, peer_start_receive, start_send}

  unfoldable pub try_register_session :
      ℕ → Endpoint → State Session World → Bool × State Session World
  try_register_session id src st =
      let (added, sessions) = try_emplace id (make_session src) st.relay.sessions in
      (added, record st { relay = record (st.relay) { sessions = sessions } })

  unfoldable pub restart_peer : State Session World → State Session World
  restart_peer st = record st { world = peer_start_receive st.world }

  unfoldable pub restart_client : State Session World → State Session World
  restart_client st = record st { world = client_start_receive st.world }

  -- The body of the test on the size in `on_client_received`.
  unfoldable pub register : Endpoint → Packet → State Session World → Outcome (State Session World)
  unfolding try_register_session restart_peer
  register src packet st = do
    id ← get_session_id packet.content
    let r = try_register_session id src st
    ok (if r.0 then restart_peer r.1 else r.1)

  unfoldable pub on_client_received :
      Tls → Endpoint → Packet → State Session World → Outcome (State Session World)
  unfolding register restart_client update_this_thread count_in
  on_client_received tls src packet st = do
    st ← update_this_thread tls (count_in packet) st
    st ← (if packet.length == sizeof_session_id then register src packet st else ok st)
    ok (restart_client st)

  not_forwarded : State Session World → Outcome (Bool × State Session World)
  unfolding restart_peer
  not_forwarded st = ok (false, restart_peer st)

  -- The overload of `on_peer_received` that hands the session to a callback.
  unfoldable pub on_peer_received_with :
      Tls
      → Packet
      → (Session → State Session World → Outcome (State Session World))
      → State Session World
      → Outcome (Bool × State Session World)
  unfolding update_this_thread count_in find_session not_forwarded
  on_peer_received_with tls packet with_session st = do
    st ← update_this_thread tls (count_in packet) st
    if leb sizeof_session_id packet.length
        then (do
          id ← get_session_id packet.content
          elim (find_session id st) [
            | some session ↦ do st ← with_session session st; ok (true, st)
            | none ↦ not_forwarded st
          ])
        else not_forwarded st

  unfoldable pub on_peer_received :
      Tls → Endpoint → Packet → State Session World → Outcome (Bool × State Session World)
  unfolding update_this_thread count_in find_session not_forwarded
  on_peer_received tls src packet st = do
    st ← update_this_thread tls (count_in packet) st
    if leb sizeof_session_id packet.length
        then (do
          id ← get_session_id packet.content
          elim (find_session id st) [
            | some session ↦ do st ← start_send tls session packet st; ok (true, st)
            | none ↦ not_forwarded st
          ])
        else not_forwarded st

  unfoldable pub on_session_sent :
      Tls → Packet → State Session World → Outcome (State Session World)
  unfolding restart_peer
  on_session_sent = on_session_sent_with restart_peer
