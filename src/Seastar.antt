-- ===== src/Seastar.antt =====
-- seastar/main.cpp: `seastar_api` and the two loops of `relay_worker::start` on one shard. A receive or a
-- send of Seastar is a future: the code behind it runs as one step when it is ready, and
-- `keep_doing` starts an iteration when the one before is over. The shard's id is the thread index.
pub mod Channel
pub mod Order
pub mod Startup
mod Examples
use urn.Prelude.{
  ℕ, ◌≡◌, List, [], ◌∷◌, ◌++◌, Option, none, some, Outcome, ok, ◌>>=◌, length, Address, Datagram,
}
use urn.Relay.Packet.{Packet}
use urn.Relay.Logic.{
  Tls, State, Relay, Library, on_client_received, on_session_sent_with, receive_peer_data,
}

pub record Session : Type 0 where
  pub client_endpoint : Address

-- A datagram of Seastar comes in one or more fragments, each with its address; the first is `frag(0)`.
pub record UdpDatagram : Type 0 where
  pub src : Address
  pub base : ℕ
  pub first : List ℕ
  pub others : List (List ℕ)

abbrev pub joined : List (List ℕ) → List ℕ
joined [] = []
joined (fragment ∷ rest) = fragment ++ joined rest

-- The bytes of a datagram, which `client_chan.send` sends.
abbrev pub bytes_of : UdpDatagram → List ℕ
bytes_of dgram = dgram.first ++ joined dgram.others

-- Where `peer_loop` stands: at its receive, or at a send, with `stat_packet`.
pub data PeerLoop : Type 0 where
  receiving : PeerLoop
  sending : Packet → PeerLoop

-- `channel` are the datagrams that `client_chan.send` was called with.
pub record Shard : Type 0 where
  pub peer_loop : PeerLoop
  pub channel : List Datagram

abbrev pub St : Type 0
St = State Session Shard

-- `seastar_api`: neither `start_receive` nor `start_send` does anything.
abbrev pub seastar_api : Library Address Session Shard
seastar_api = record {
  make_session = λ client_endpoint. record { client_endpoint = client_endpoint };
  client_start_receive = λ shard. shard;
  peer_start_receive = λ shard. shard;
  start_send = λ tls session packet st. ok st;
}

-- `seastar_api::packet(frag.base, frag.size)` for the first fragment.
abbrev pub packet_of : UdpDatagram → Packet
packet_of dgram = record {
  address = dgram.base;
  content = dgram.first;
  length = length dgram.first;
}

-- An iteration of `client_loop`.
unfoldable pub on_client_datagram : Tls → UdpDatagram → St → Outcome St
on_client_datagram tls dgram st = on_client_received seastar_api tls dgram.src (packet_of dgram) st

-- An iteration of `peer_loop`, up to the send.
unfoldable pub on_peer_datagram : Tls → UdpDatagram → St → Outcome St
on_peer_datagram tls dgram st = do
  let stat_packet = packet_of dgram
  (session, st) ← receive_peer_data tls stat_packet st
  elim session [
    | none ↦ ok st
    | some session ↦ ok (record st {
      world = record {
        peer_loop = sending stat_packet;
        channel =
            st.world.channel
            ++ (record { address = session.client_endpoint; bytes = bytes_of dgram } ∷ []);
      };
    })
  ]

-- The continuation of the send.
unfoldable pub on_sent : Tls → Packet → St → Outcome St
on_sent tls stat_packet st = do
  st ← on_session_sent_with (λ st. st) tls stat_packet st
  ok (record st { world = record (st.world) { peer_loop = receiving } })
