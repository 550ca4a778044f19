-- ===== src/Libuv/Examples.antt =====
-- Tests of the model of libuv/relay.cpp, and its theorems at concrete inputs.
use urn.Prelude.{
  ℕ, ◌≡◌, ◌++◌, refl, sym, List, [], ◌∷◌, true, some, Outcome, ok, fault, length, Address, arith,
  Datagram,
}
use mathlib.Core.Path.{subst}
use urn.Relay.Packet.{write_le, get_session_id, read_le}
use urn.IntrusiveStack.{try_pop}
use urn.Relay.Sessions.{find}
use urn.Relay.Logic.{Relay, init, on_peer_received}
use urn.Relay.Logic.Counters.{IsStarted}
use urn.Relay.Logic.Routing.{named, table_of}
use urn.Libuv.Buffers.{alloc, allocate, take_buffer, alloc_buffer, Session, Send, thread_init}
use urn.Libuv.Thread.{
  die_on_error, take_peer_packet, fill_chunk, start_send, finish_read, packet_at, St, UdpSend,
  on_peer_read, on_client_read, on_sent,
}
use urn.Libuv.Loop.{Reads, single, chunked, read, completed, hand_out, read_chunks, write_region}
use urn.Libuv.Loop.Reading.{Idle, Passes}
use urn.Libuv.Loop.Peers.{routed, datagrams_of, peer_read-routed}
use urn.Libuv.Loop.Clients.{Admits, first_client, client_read-Admits}
use urn.Libuv.Loop.System.{
  on_sent-Idle, Reach, started, next, peers_read, send_done, Delivers, Reach-Delivers,
  thread_init-Idle,
}

abbrev alice : Address
alice = record { sin_addr = 1; sin_port = 3478 }

abbrev bob : Address
bob = record { sin_addr = 2; sin_port = 3479 }

abbrev accepts_all : UdpSend
accepts_all = λ t s. true

-- Alice registers the identifier 7; Bob sends to it, and to an unknown identifier.
abbrev registration : Datagram
registration = record { address = alice; bytes = write_le 8 7 }

abbrev to_alice : Datagram
to_alice = record { address = bob; bytes = write_le 8 7 ++ (5 ∷ []) }

abbrev to_nobody : Datagram
to_nobody = record { address = bob; bytes = write_le 8 9 }

abbrev delivered : Datagram
delivered = record { address = alice; bytes = write_le 8 7 ++ (5 ∷ []) }

abbrev relay_of_alice : Relay Session
relay_of_alice = record (init {Session = Session} 1) {
  sessions = (7, record { client_endpoint = alice }) ∷ [];
}

abbrev start : St
start = record { relay = relay_of_alice; world = thread_init 4 }

relay_of_alice-IsStarted : IsStarted 0 (length relay_of_alice.per_thread_statistics) (some 0)
unfolding init
relay_of_alice-IsStarted = record { is_set = refl; in_range = omega arith }

start-Idle : Idle 0 (some 0) [] start
start-Idle = thread_init-Idle 0 4 relay_of_alice relay_of_alice-IsStarted

abbrev peer_reads : Reads
peer_reads = chunked (to_alice ∷ to_nobody ∷ [])

routed_one : routed (table_of start) (datagrams_of peer_reads) ≡ delivered ∷ []
unfolding routed named write_le get_session_id read_le find init
routed_one = refl

first_client_7 : first_client (registration ∷ []) 7 ≡ some (record { client_endpoint = alice })
unfolding first_client write_le get_session_id read_le
first_client_7 = refl

peer_read-routed_example :
    (free' : List ℕ) × (st' : St) × (read (on_peer_read accepts_all (some 0)) peer_reads start
      ≡ ok st')
    × Idle 0 (some 0) free' st'
    × Passes (routed (table_of start) (datagrams_of peer_reads)) start st'
peer_read-routed_example =
    peer_read-routed accepts_all (λ t s. refl) 0 [] peer_reads start (omega arith) start-Idle
      (λ _. unfold thread_init in omega arith)

client_read-Admits_example :
    (free' : List ℕ) × (st' : St) × (read
        (on_client_read accepts_all (some 0))
        (single registration)
        start
      ≡ ok st')
    × Idle 0 (some 0) free' st'
    × Admits (first_client (registration ∷ [])) start st'
client_read-Admits_example =
    client_read-Admits accepts_all 0 [] (single registration) start tt start-Idle
      (λ _. unfold thread_init in omega arith)

abbrev end_of : Outcome St → St
end_of (ok st) = st
end_of (fault why) = start

-- After the read from the peers' socket one send is under way.
unfoldable after_read : St
after_read = end_of (read (on_peer_read accepts_all (some 0)) peer_reads start)

end_of-ok : (run : Outcome St) (st : St) → run ≡ ok st → (run ≡ ok (end_of run)) × (end_of run ≡ st)
end_of-ok (ok st₁) st e = (refl, cc)
end_of-ok (fault why) st e = cc

-- The send of the datagram to Alice.
abbrev under_way : Send
under_way = record { buf = 1; slot = 0; base = 131072; len = 9; to = alice }

after_read-sending : after_read.world.sending ≡ [] ++ (under_way ∷ [])
unfolding after_read read hand_out read_chunks alloc_buffer alloc take_buffer allocate on_peer_read
    on_peer_received finish_read die_on_error take_peer_packet fill_chunk start_send write_region
    write_le packet_at thread_init find init try_pop get_session_id
after_read-sending = refl

peer_reads-ok :
    (free : List ℕ) × (read (on_peer_read accepts_all (some 0)) peer_reads start ≡ ok after_read)
    × Idle 0 (some 0) free after_read
unfolding after_read
peer_reads-ok =
    let (free, st, run, idle, p) =
      peer_read-routed accepts_all (λ t s. refl) 0 [] peer_reads start (omega arith) start-Idle
        (λ _. unfold thread_init in omega arith) in
    let (returns, same) =
      end_of-ok (read (on_peer_read accepts_all (some 0)) peer_reads start) st run in
    (free, returns, subst (Idle 0 (some 0) free) (sym same) idle)

abbrev during_completion : St
during_completion = record after_read { world = completed [] under_way [] after_read.world }

-- And after the completion of that send.
unfoldable after_sent : St
after_sent = end_of (on_sent (some 0) 1 0 true during_completion)

on_sent-ok : on_sent (some 0) 1 0 true during_completion ≡ ok after_sent
unfolding after_sent
on_sent-ok =
    let (free, st, run, _, _, _) =
      on_sent-Idle 0 peer_reads-ok.0 [] under_way [] after_read peer_reads-ok.2
        after_read-sending in
    (end_of-ok (on_sent (some 0) 1 0 true during_completion) st run).0

after_sent-Reach :
    Reach accepts_all
      (some 0)
      0
      (([] ++ routed (table_of start) (datagrams_of peer_reads)) ++ [])
      after_sent
after_sent-Reach =
    next ([] ++ routed (table_of start) (datagrams_of peer_reads)) [] after_read after_sent
      (next [] (routed (table_of start) (datagrams_of peer_reads)) start after_read
        (started 4 relay_of_alice relay_of_alice-IsStarted)
        (peers_read peer_reads start after_read (omega arith)
          (λ _. unfold thread_init in omega arith) peer_reads-ok.1))
      (send_done [] under_way [] after_read after_sent after_read-sending on_sent-ok)

Reach-Delivers_example :
    Delivers 0 (some 0) (([] ++ routed (table_of start) (datagrams_of peer_reads)) ++ []) after_sent
Reach-Delivers_example =
    Reach-Delivers accepts_all (λ t s. refl) 0
      (([] ++ routed (table_of start) (datagrams_of peer_reads)) ++ []) after_sent after_sent-Reach
