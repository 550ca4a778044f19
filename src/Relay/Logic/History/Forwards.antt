-- ===== src/Relay/Logic/History/Forwards.antt =====
-- From registration to forwarding, over a whole history.
use urn.Prelude.{
  ℕ, ◌+◌, ◌^◌, ◌<◌, ◌≡◌, ap, ◌∙◌, true, List, ◌++◌, ok, arith, length, length-append,
  length-replicate, leb,
}
use urn.Relay.Packet.{Packet, write_le, sizeof_session_id}
use urn.Relay.Packet.Laws.{get_session_id-write_le, length-write_le}
use urn.Relay.Statistics.{Doubles, no_statistics}
use urn.Relay.Sessions.{find}
use urn.Relay.Logic.{Tls, State, Library, init, count_in, find_session, on_peer_received}
use urn.Relay.Logic.Counters.{IsStarted, IsReadable, counted, threads}
use urn.Relay.Logic.Forwarding.{addressee, deliver, on_peer_received-deliver}
use urn.Relay.Logic.History.{Event, AllProper, SendLaws, run}
use urn.Relay.Logic.History.Table.{first_asked, run-first_asked, run-threads}

-- A peer's datagram: the identifier in its first eight bytes, and a payload.
abbrev pub datagram : ℕ → ℕ → List ℕ → Packet
datagram at id payload = record {
  address = at;
  content = write_le sizeof_session_id id ++ payload;
  length = sizeof_session_id + length payload;
}

abbrev pub started : {Session World : Type 0} → ℕ → World → State Session World
started n w = record { relay = init n; world = w }

datagram-IsReadable : (at id : ℕ) (payload : List ℕ) → IsReadable (datagram at id payload)
datagram-IsReadable at id payload =
    omega (arith, length-append (write_le 8 id) payload, length-write_le 8 id)

module _ {Endpoint Session World : Type 0} (lib : Library Endpoint Session World) (d : Doubles)
    (laws : SendLaws lib) where
  -- Over a library whose sends keep the session map and the receive counters: a relay with `n`
  -- threads that has handled any history of calls forwards a peer's datagram to the
  -- session of the first client that asked for the datagram's identifier in that history, and to no
  -- other; if no client asked for it, the datagram is dropped and the peer receive is restarted.
  pub run-deliver :
      (n : ℕ) (w : World) (es : List (Event Endpoint)) (st : State Session World) (tls : Tls)
      (i : ℕ) (src : Endpoint) (at id : ℕ) (payload : List ℕ)
      → AllProper n es
      → run lib d es (started n w) ≡ ok st
      → IsStarted i n tls
      → id < 2 ^ 64
      → on_peer_received lib tls src (datagram at id payload) st
        ≡ deliver lib
            (λ x. lib.start_send tls x (datagram at id payload))
            (first_asked lib d es id)
            (counted i (count_in (datagram at id payload)) st)
  unfolding init find_session find
  run-deliver n w es st tls i src at id payload v h s small =
      let fresh = length-replicate n no_statistics in
      let v' : AllProper (threads (started {Session = Session} n w)) es = rw fresh v in
      let table = run-first_asked lib d laws es (started n w) st v' h id in
      let same = run-threads lib d laws es (started n w) st v' h in
      let named = get_session_id-write_le id payload small in
      let who : addressee (datagram at id payload) st ≡ first_asked lib d es id =
        let long : leb 8 (8 + length payload) ≡ true = ground arith in rw (long, named) table in
      on_peer_received-deliver lib i src (datagram at id payload) st (rw (same, fresh) s)
        (datagram-IsReadable at id payload)
      ∙ ap
          (λ o.
            deliver lib (λ x. lib.start_send tls x (datagram at id payload)) o
              (counted i (count_in (datagram at id payload)) st))
          who
