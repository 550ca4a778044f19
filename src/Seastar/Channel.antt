-- ===== src/Seastar/Channel.antt =====
-- seastar/main.cpp: what a shard sends.
use urn.Prelude.{
  ℕ, ◌≡◌, refl, ap, sym, ◌∙◌, List, [], ◌∷◌, ◌++◌, Option, none, some, Option-cases, inl, inr, ok,
  length, arith, Datagram,
}
use mathlib.Core.List.{append-nil}
use urn.Relay.Packet.{Packet}
use urn.Relay.Logic.{Tls, count_in, count_out}
use urn.Relay.Logic.Counters.{IsStarted, threads, counted, modify, update_this_thread-counted}
use urn.Relay.Logic.Registration.{on_client_received-Registered}
use urn.Relay.Logic.Forwarding.{addressee, receive_peer_data-addressee}
use urn.Relay.Logic.Routing.{named, table_of, addressee-named}
use urn.Relay.Logic.Quiet.{either}
use urn.Seastar.{
  Session, UdpDatagram, bytes_of, PeerLoop, receiving, sending, St, seastar_api, packet_of,
  on_client_datagram, on_peer_datagram, on_sent,
}

-- The specification: a datagram goes whole to the client of the session that its first fragment
-- names.
abbrev pub to_client : Option Session → List ℕ → List Datagram
to_client none bytes = []
to_client (some session) bytes = record { address = session.client_endpoint; bytes = bytes } ∷ []

abbrev pub forwarded : (ℕ → Option Session) → UdpDatagram → List Datagram
forwarded table dgram = to_client (named table dgram.first) (bytes_of dgram)

-- How many sends are under way.
abbrev pub under_way : PeerLoop → ℕ
under_way receiving = 0
under_way (sending stat_packet) = 1

-- What an iteration of `peer_loop` up to the send has done.
pub record Forwards (i : ℕ) (dgram : UdpDatagram) (st st' : St) : Type 0 where
  pub channel : st'.world.channel ≡ st.world.channel ++ forwarded (table_of st) dgram
  pub busy : under_way st'.world.peer_loop ≡ length (forwarded (table_of st) dgram)
  pub relay : st'.relay ≡ (counted i (count_in (packet_of dgram)) st).relay

-- On a started shard whose `peer_loop` is at its receive, a datagram is counted by its first fragment and
-- sent whole to the client of the session that the first eight bytes of that fragment name, or
-- dropped where they name none; nothing faults, and the loop waits exactly if it sends.
pub on_peer_datagram-Forwards :
    {tls : Tls} (i : ℕ) (dgram : UdpDatagram) (st : St)
    → IsStarted i (threads st) tls
    → st.world.peer_loop ≡ receiving
    → (st' : St) × (on_peer_datagram tls dgram st ≡ ok st') × Forwards i dgram st st'
unfolding on_peer_datagram
on_peer_datagram-Forwards i dgram st s at =
    let p = packet_of dgram in
    let run = receive_peer_data-addressee i p st s (omega arith) in
    let who : addressee p st ≡ named (table_of st) dgram.first =
      addressee-named p dgram.first st refl refl in
    elim (Option-cases (named (table_of st) dgram.first)) [
      | inl e ↦ (
        counted i (count_in p) st,
        rw (run, who, e) refl,
        record {
          channel = rw e (sym (append-nil st.world.channel));
          busy = rw e (ap under_way at);
          relay = refl;
        },
      )
      | inr (x, e) ↦ (
        record (counted i (count_in p) st) {
          world = record {
            peer_loop = sending p;
            channel =
                st.world.channel
                ++ (record { address = x.client_endpoint; bytes = bytes_of dgram } ∷ []);
          };
        },
        rw (run, who, e) refl,
        record { channel = rw e refl; busy = rw e refl; relay = refl },
      )
    ]

-- An iteration of `client_loop` counts the datagram, and leaves the channel and the other loop alone.
pub record Takes (i : ℕ) (dgram : UdpDatagram) (st st' : St) : Type 0 where
  pub same_world : st'.world ≡ st.world
  pub counters :
      st'.relay.per_thread_statistics
      ≡ modify i (count_in (packet_of dgram)) st.relay.per_thread_statistics

pub on_client_datagram-Takes :
    {tls : Tls} (i : ℕ) (dgram : UdpDatagram) (st : St)
    → IsStarted i (threads st) tls
    → (st' : St) × (on_client_datagram tls dgram st ≡ ok st') × Takes i dgram st st'
unfolding on_client_datagram
on_client_datagram-Takes i dgram st s =
    let (st', run, r) =
      on_client_received-Registered seastar_api i dgram.src (packet_of dgram) st s (omega arith) in
    (st', run, record { same_world = r.receives ∙ either _ st.world; counters = r.counters })

pub on_sent-counted :
    {tls : Tls} (i : ℕ) (p : Packet) (st : St)
    → IsStarted i (threads st) tls
    → on_sent tls p st
      ≡ ok (record (counted i (count_out p) st) {
        world = record (st.world) { peer_loop = receiving };
      })
unfolding on_sent
on_sent-counted i p st s = rw (update_this_thread-counted i (count_out p) st s) refl
