-- ===== src/Relay/Logic/Reports.antt =====
-- `on_session_sent` and the statistics tick.
use urn.Prelude.{ℕ, ◌≡◌, ◌≢◌, replicate, length-replicate, ok}
use urn.Relay.Packet.{Packet}
use urn.Relay.Statistics.{Doubles, no_statistics}
use urn.Relay.Rate.{Report}
use urn.Relay.Rate.Laws.{print_statistics-reset}
use urn.Relay.Logic.{
  Tls, State, Library, count_out, restart_peer, on_session_sent, on_statistics_tick,
}
use urn.Relay.Logic.Counters.{IsStarted, threads, counted, update_this_thread-counted}

-- A finished send is counted in the thread's own entry, and restarts the peer receive.
pub on_session_sent-counted :
    {Endpoint Session World : Type 0} (lib : Library Endpoint Session World) {tls : Tls} (i : ℕ)
    (p : Packet) (st : State Session World)
    → IsStarted i (threads st) tls
    → on_session_sent lib tls p st ≡ ok (restart_peer lib (counted i (count_out p) st))
unfolding on_session_sent
on_session_sent-counted lib i p st s = rw (update_this_thread-counted i (count_out p) st s)

module _ {Session World : Type 0} where
  -- The state with every counter zero.
  abbrev pub zeroed : State Session World → State Session World
  zeroed st = record st {
    relay = record (st.relay) { per_thread_statistics = replicate (threads st) no_statistics };
  }

  pub threads-zeroed : (st : State Session World) → threads (zeroed st) ≡ threads st
  threads-zeroed st = length-replicate (threads st) no_statistics

  -- A report comes out and zeroes the counters.
  pub on_statistics_tick-zeroed :
      (d : Doubles) (interval : ℕ) (st : State Session World)
      → interval ≢ 0
      → (r : Report) × (on_statistics_tick d interval st ≡ ok (r, zeroed st))
  unfolding on_statistics_tick
  on_statistics_tick-zeroed d interval st ne =
      let (r, e) = print_statistics-reset d st.relay.per_thread_statistics interval ne in (r, rw e)
