-- ===== src/Uring/Worker/Laws.antt =====
-- `uring::session::start_send` as the library of urn/relay.hpp, and how failed sends are counted.
use urn.Prelude.{
  ℕ, zero, suc, ◌+◌, ◌-◌, ◌%◌, ◌^◌, ◌<◌, ◌≡◌, refl, ap, map, List, [], ◌∷◌, ok, >>=-eq-ok, arith,
  get_elem?, some,
}
use urn.Relay.Packet.{Packet}
use urn.Relay.Statistics.{Doubles, Statistics, update_io_statistics, size_mod}
use urn.Relay.Logic.{Tls, count_out, restart_peer}
use urn.Relay.Logic.Counters.{IsStarted, threads, counted, modify}
use urn.Relay.Logic.Reports.{on_session_sent-counted}
use urn.Relay.Logic.History.{SendLaws}
use urn.Uring.Context.{Session}
use urn.Uring.Events.{release_event}
use urn.Uring.Worker.{St, failed, uring, start_send, packet_at, to_uint32, on_peer_tx}

-- A send through the ring that returns leaves the relay's members as they are: neither the session
-- map nor any counter changes before the send completes.
pub start_send-relay :
    (tls : Tls) (x : Session) (p : Packet) (st st' : St)
    → uring.start_send tls x p st ≡ ok st'
    → st'.relay ≡ st.relay
start_send-relay tls x p st st' h =
    let (io, _, e) = >>=-eq-ok (start_send x p st.world) _ h in ground arith

pub uring-SendLaws : SendLaws uring
uring-SendLaws = record {
  keeps_sessions = λ tls x p st st' h. ap (λ r. r.sessions) (start_send-relay tls x p st st' h);
  keeps_received = λ tls x p st st' h.
      ap (λ r. map (λ s. s.ingress) r.per_thread_statistics) (start_send-relay tls x p st st' h);
}

-- The counters of a thread's entry.
get-modify :
    (i : ℕ) (f : Statistics → Statistics) (xs : List Statistics) (s : Statistics)
    → get_elem? xs i ≡ some s
    → get_elem? (modify i f xs) i ≡ some (f s)
unfolding modify
get-modify i f [] s h = cc
get-modify zero f (x ∷ xs) s h = ground arith
get-modify (suc i) f (x ∷ xs) s h = get-modify i f xs s h

-- A send that failed with an error number is counted in the thread's entry as a packet sent, and with
-- 2 ^ 32 less the error number as its bytes: the negative result is read as an unsigned number.
pub on_peer_tx-failed :
    (d : Doubles) (tls : Tls) (i ev errno : ℕ) (st : St) (s : Statistics)
    → IsStarted i (threads st) tls
    → get_elem? st.relay.per_thread_statistics i ≡ some s
    → 0 < errno
    → errno < 2 ^ 32
    → (st' : St) × (s' : Statistics) × (on_peer_tx d tls ev (failed errno) st ≡ ok st')
      × (get_elem? st'.relay.per_thread_statistics i ≡ some s')
      × (s'.egress.packets ≡ (s.egress.packets + 1) % size_mod)
      × (s'.egress.bytes ≡ (s.egress.bytes + (2 ^ 32 - errno)) % size_mod)
unfolding on_peer_tx packet_at to_uint32 count_out update_io_statistics
on_peer_tx-failed d tls i ev errno st s t e pos small =
    let p = packet_at ev (to_uint32 (failed errno)) st.world in
    let st₁ = restart_peer uring (counted i (count_out p) st) in
    (
      record st₁ { world = release_event ev st.world },
      count_out p s,
      rw (on_session_sent-counted uring i p st t) (unfold restart_peer in refl),
      unfold restart_peer in get-modify i (count_out p) st.relay.per_thread_statistics s e,
      refl,
      omega arith,
    )
