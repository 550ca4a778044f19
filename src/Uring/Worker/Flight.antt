-- ===== src/Uring/Worker/Flight.antt =====
-- `uring::session::start_send` and the kernel's receives against the sends that are in the ring.
use urn.Prelude.{ℕ, ◌*◌, ◌≡◌, ap, ◌∙◌, true, List, ◌∷◌, arith, ◌==◌, length, take, take_all}
use urn.Relay.Packet.{Packet}
use urn.Uring.Context.{Context, Session, peer_tx, rx, Sqe, sendmsg, memory_per_packet}
use urn.Uring.Events.Owned.{Owned, count_ring}
use urn.Uring.Events.Sends.{sends_in, sends, sends_in-frame}
use urn.Uring.Worker.Sending.{Sent}

module _ {io io' : Context} {held : List ℕ} (x : Session) (p : Packet) (id : ℕ) where
  -- A send joins the sends in the ring with the packet's bytes, and the others stay.
  pub Sent-sends :
      (bytes : List ℕ)
      → Owned io held
      → count_ring id io.ring ≡ 0
      → p.length ≡ length bytes
      → p.content ≡ bytes
      → Sent x p io held id io'
      → sends io' ≡ record { address = x.client_endpoint.address; bytes = bytes } ∷ sends io
  Sent-sends bytes o out len content r =
      let self : (id == id) ≡ true = ground arith in
      let here : (id * memory_per_packet == id * memory_per_packet) ≡ true = ground arith in
      let q : Sqe = record {
        op = sendmsg;
        socket_id = io.client_socket;
        event = id;
        fixed_file = true;
      } in
      let event : io'.io_events id ≡ record {
        kind = peer_tx;
        index = id;
        body = rx (id * memory_per_packet) p.length x.client_endpoint.address;
      } =
        rw self at (r.events id) in
      let written : io'.messages_buffer (id * memory_per_packet) ≡ take p.length p.content =
        rw here at (r.memory (id * memory_per_packet)) in
      let region : io'.messages_buffer (id * memory_per_packet) ≡ bytes =
        written ∙ rw (len, content) (take_all bytes) in
      let rest : sends_in io'.io_events io'.messages_buffer io.ring ≡ sends io =
        sends_in-frame id io.io_events io'.io_events io.messages_buffer io'.messages_buffer io.ring
          out o.armed (λ a ne. ground (arith, r.events a))
          (λ base ne. ground (arith, r.memory base)) in
      ap (sends_in io'.io_events io'.messages_buffer) r.entry
      ∙ rw (event, region, len, take_all)
          (ap (◌∷◌ (record { address = x.client_endpoint.address; bytes = bytes })) rest)
