-- ===== src/Libuv/Thread.antt =====
-- libuv/relay.cpp: `libuv::session::start_send` with its callback, the two receive callbacks of
-- `thread::start`, and the order in which libuv makes them.
use urn.Prelude.{
  ℕ, suc, ◌+◌, ◌-◌, ◌%◌, Bool, false, ◌||◌, [], ◌∷◌, ◌++◌, some, Outcome, ok, fault, abort,
  null_deref, ◌>>=◌, ◌>>◌, ensure, or_fault, ◌==◌, ltb, not, if◌then◌else◌, Address, update,
}
use urn.IntrusiveStack.{Ptr, nullptr}
use urn.Relay.Packet.{Packet}
use urn.Relay.Statistics.{size_mod}
use urn.Relay.Logic.{
  Tls, State, Library, on_session_sent_with, on_client_received, on_peer_received,
}
use urn.Libuv.Buffers.{chunks_size, Session, Send, Thread, release}

abbrev pub St : Type 0
St = State Session Thread

-- `uv_udp_send` returns an error code or not.
abbrev pub UdpSend : Type 0
UdpSend = Thread → Send → Bool

-- The writes to chunk number `ref_count` of the buffer.
unfoldable pub fill_chunk : Ptr → Session → Packet → Thread → Thread
fill_chunk b session packet t =
    let buf = t.bufs b in
    record t {
      bufs = update t.bufs b (record {
        chunks =
            update buf.chunks buf.ref_count (some (record { packet = packet; session = session }));
        ref_count = suc buf.ref_count;
      });
    }

unfoldable pub start_send : UdpSend → Session → Packet → Thread → Outcome Thread
unfolding fill_chunk
start_send udp_send session packet t = do
  let b = t.last_alloc
  ensure (not (b == nullptr)) null_deref
  let slot = (t.bufs b).ref_count
  ensure (not (slot == chunks_size)) abort
  let t' = fill_chunk b session packet t
  let send : Send = record {
    buf = b;
    slot = slot;
    base = packet.address;
    len = packet.length;
    to = session.client_endpoint;
  }
  ensure (udp_send t' send) abort
  ok (record t' { sending = t'.sending ++ (send ∷ []) })

-- The library that urn/relay.hpp is used with here.
abbrev pub libuv : UdpSend → Library Address Session Thread
libuv udp_send = record {
  make_session = λ client_endpoint. record { client_endpoint = client_endpoint };
  client_start_receive = λ t. t;
  peer_start_receive = λ t. t;
  start_send = λ tls session packet st. do
    t ← start_send udp_send session packet st.world
    ok (record st { world = t });
}

-- `--buf->ref_count`, and the release of the buffer at zero.
unfoldable pub drop_ref : Ptr → Thread → Thread
drop_ref b t =
    let n = ((t.bufs b).ref_count + size_mod - 1) % size_mod in
    let t' = record t { bufs = update t.bufs b (record (t.bufs b) { ref_count = n }) } in
    if n == 0 then release b t' else t'

-- The callback of `uv_udp_send`, of a send's request and a status that is an error or not.
unfoldable pub on_sent : Tls → Ptr → ℕ → Bool → St → Outcome St
unfolding drop_ref
on_sent tls buf slot success st = do
  ensure success abort
  chunk ← or_fault ((st.world.bufs buf).chunks slot) null_deref
  st ← on_session_sent_with (λ st. st) tls chunk.packet st
  ok (record st { world = drop_ref buf st.world })

-- `nread`: an error code, or a count of bytes.
pub data Nread : Type 0 where
  failed : Nread
  done : ℕ → Nread

unfoldable pub die_on_error : Nread → Outcome ℕ
die_on_error failed = fault abort
die_on_error (done n) = ok n

-- `packet{*buf, nread}`
unfoldable pub packet_at : ℕ → ℕ → Thread → Packet
packet_at base n t = record { address = base; content = t.memory base; length = n }

-- The end of the receive callback of the peers' socket.
unfoldable pub finish_read : Bool → Bool → St → St
finish_read packet_reused chunk st =
    if packet_reused || chunk
    then st
    else if (st.world.bufs st.world.last_alloc).ref_count == 0
    then record st { world = release st.world.last_alloc st.world }
    else st

module _ (udp_send : UdpSend) (tls : Tls) where
  -- The part of the receive callbacks for a count of bytes that is not zero.
  unfoldable pub take_client_packet : ℕ → ℕ → Address → St → Outcome St
  unfolding packet_at
  take_client_packet n base src st =
      if ltb 0 n
      then on_client_received (libuv udp_send) tls src (packet_at base n st.world) st
      else ok st

  unfoldable pub take_peer_packet : ℕ → ℕ → Address → St → Outcome (Bool × St)
  unfolding packet_at
  take_peer_packet n base src st =
      if ltb 0 n
      then on_peer_received (libuv udp_send) tls src (packet_at base n st.world) st
      else ok (false, st)

  -- The receive callback of the clients' socket; `chunk` is `flags & UV_UDP_MMSG_CHUNK`.
  unfoldable pub on_client_read : Nread → ℕ → Address → Bool → St → Outcome St
  unfolding take_client_packet
  on_client_read nread base src chunk st = do
    n ← die_on_error nread
    st ← take_client_packet n base src st
    ok (if chunk then st else record st { world = release st.world.last_alloc st.world })

  -- The receive callback of the peers' socket.
  unfoldable pub on_peer_read : Nread → ℕ → Address → Bool → St → Outcome St
  unfolding take_peer_packet finish_read
  on_peer_read nread base src chunk st = do
    n ← die_on_error nread
    (packet_reused, st) ← take_peer_packet n base src st
    ok (finish_read packet_reused chunk st)
