-- ===== src/Mmsg/Worker/Forwards.antt =====
-- mmsg/relay.cpp: `io_run_peer_receive_frame`: which datagrams are queued for which clients.
use urn.Relay.Logic.Routing.{named, table_of, addressee-named}
use urn.Prelude.{
  ℕ, suc, ◌+◌, ◌≤◌, ◌<◌, ◌≡◌, refl, sym, ◌∙◌, Bool, true, false, List, [], ◌∷◌, ◌++◌, Option, none,
  some, Option-cases, ok, arith, length, take, take_all, inl, inr, Address, Datagram,
}
use mathlib.Core.List.{append_assoc, append-nil}
use urn.Relay.Packet.{Packet}
use urn.Relay.Sessions.{find}
use urn.Relay.Logic.{Tls, count_in, count_out, restart_peer, on_peer_received}
use urn.Relay.Logic.Counters.{IsStarted, IsReadable, threads, counted, length-modify}
use urn.Relay.Logic.Forwarding.{addressee, on_peer_received-deliver}
use mathlib.Core.Path.{subst}
use urn.Mmsg.Sending.{messages_from}
use urn.Mmsg.Vectors.{IoVectors, datagrams}
use urn.Mmsg.Worker.{
  St, Session, mmsg, rx_packet, start_send, peer_loop, receive_peers, io_run_peer_receive_frame,
}
use urn.Mmsg.Worker.Receiving.{IsWired, Holds, HoldsFrom, cut, written-HoldsFrom}
use urn.Mmsg.Worker.Queue.{queue, Kept, start_send-Queued}

abbrev to_session : Option Session → List ℕ → List Datagram
to_session none bytes = []
to_session (some session) bytes = record { address = session.client_endpoint; bytes = bytes } ∷ []

-- The specification: each datagram whose first eight bytes name a session goes to the client of that
-- session, and the others go nowhere.
unfoldable pub forwards : (ℕ → Option Session) → List Datagram → List Datagram
forwards table [] = []
forwards table (d ∷ ds) = to_session (named table (cut d)) (cut d) ++ forwards table ds

-- `ds` is queued behind what was queued, and what the handlers read is as it was.
pub record Forwarded (ds : List Datagram) (n : ℕ) (st st' : St) : Type 0 where
  pub queued : queue st'.world ≡ queue st.world ++ ds
  pub grown : st'.world.clients_io.tx_length ≤ n + st.world.clients_io.tx_length
  pub kept : Kept st.world st'.world
  pub sessions : st'.relay.sessions ≡ st.relay.sessions
  pub same_threads : threads st' ≡ threads st

unchanged-Forwarded : (st : St) (i : ℕ) (p : Packet) → Forwarded [] 1 st (counted i (count_in p) st)
unchanged-Forwarded st i p = record {
  queued = sym (append-nil (queue st.world));
  grown = omega arith;
  kept = record { memory = refl; peers = refl; clients = refl; out = refl; capacity = refl };
  sessions = refl;
  same_threads = length-modify i (count_in p) st.relay.per_thread_statistics;
}

rx_packet-named :
    (v : IoVectors) (j : ℕ) (d : Datagram) (st : St)
    → Holds v st.world.message_mem j d
    → addressee (rx_packet v st.world.message_mem j) st ≡ named (table_of st) (cut d)
unfolding rx_packet
rx_packet-named v j d st h =
    addressee-named (rx_packet v st.world.message_mem j) (cut d) st h.len h.content

pub rx_packet-IsReadable :
    (v : IoVectors) (mem : ℕ → List ℕ) (j : ℕ) (d : Datagram)
    → Holds v mem j d
    → IsReadable (rx_packet v mem j)
unfolding rx_packet
rx_packet-IsReadable v mem j d h = rw (h.len, h.content) (omega arith)

rx_packet-cut :
    (v : IoVectors) (mem : ℕ → List ℕ) (j : ℕ) (d : Datagram)
    → Holds v mem j d
    → take (rx_packet v mem j).length (mem (rx_packet v mem j).address) ≡ cut d
unfolding rx_packet
rx_packet-cut v mem j d h = rw (h.len, h.content) (take_all (cut d))

sent-Forwarded :
    {tls : Tls} (i j : ℕ) (d : Datagram) (st : St) (x : Session)
    → let p = rx_packet st.world.peers_io.rx st.world.message_mem j in
      IsStarted i (threads st) tls
      → Holds st.world.peers_io.rx st.world.message_mem j d
      → st.world.clients_io.tx_length < st.world.clients_io.tx.capacity
      → (st' : St) × (start_send tls x p (counted i (count_in p) st) ≡ ok st')
        × Forwarded (to_session (some x) (cut d)) 1 st st'
sent-Forwarded {tls = tls} i j d st x s h room =
    let p = rx_packet st.world.peers_io.rx st.world.message_mem j in
    let st₁ = counted i (count_in p) st in
    let same : threads st₁ ≡ threads st =
      length-modify i (count_in p) st.relay.per_thread_statistics in
    let s₁ : IsStarted i (threads st₁) tls = rw same s in
    let (io, run, q) = start_send-Queued i x p st₁ s₁ room in
    (
      counted i (count_out p) (record st₁ { world = io }),
      run,
      record {
        queued = q.last ∙ rw (rx_packet-cut st.world.peers_io.rx st.world.message_mem j d h) refl;
        grown = omega (arith, q.grown);
        kept = q.kept;
        sessions = refl;
        same_threads = length-modify i (count_out p) st₁.relay.per_thread_statistics ∙ same;
      },
    )

-- The turn of the loop for one message.
step-Forwarded :
    {tls : Tls} (i : ℕ) (src : Address) (j : ℕ) (d : Datagram) (st : St)
    → IsStarted i (threads st) tls
    → Holds st.world.peers_io.rx st.world.message_mem j d
    → st.world.clients_io.tx_length < st.world.clients_io.tx.capacity
    → (b : Bool) × (st' : St) × (on_peer_received mmsg tls src
          (rx_packet st.world.peers_io.rx st.world.message_mem j)
          st
        ≡ ok (b, st'))
      × Forwarded (to_session (named (table_of st) (cut d)) (cut d)) 1 st st'
unfolding restart_peer
step-Forwarded {tls = tls} i src j d st s h room =
    let rx = st.world.peers_io.rx in
    let mem = st.world.message_mem in
    let p = rx_packet rx mem j in
    let who = rx_packet-named rx j d st h in
    let run = on_peer_received-deliver mmsg i src p st s (rx_packet-IsReadable rx mem j d h) in
    elim (Option-cases (named (table_of st) (cut d))) [
      | inl e ↦ (
        false,
        counted i (count_in p) st,
        run ∙ rw (who, e) refl,
        rw e (unchanged-Forwarded st i p),
      )
      | inr (x, e) ↦
          let (st', sent, f) = sent-Forwarded i j d st x s h room in
          (true, st', run ∙ rw (who, e, sent) refl, rw e f)
    ]

trans-Forwarded :
    (ds es : List Datagram) (n : ℕ) (st st₁ st₂ : St)
    → Forwarded ds 1 st st₁
    → Forwarded es n st₁ st₂
    → Forwarded (ds ++ es) (suc n) st st₂
trans-Forwarded ds es n st st₁ st₂ f g = record {
  queued = g.queued ∙ rw f.queued (append_assoc (queue st.world) ds es);
  grown = omega (arith, f.grown, g.grown);
  kept = record {
    memory = g.kept.memory ∙ f.kept.memory;
    peers = g.kept.peers ∙ f.kept.peers;
    clients = g.kept.clients ∙ f.kept.clients;
    out = g.kept.out ∙ f.kept.out;
    capacity = g.kept.capacity ∙ f.kept.capacity;
  };
  sessions = g.sessions ∙ f.sessions;
  same_threads = g.same_threads ∙ f.same_threads;
}

peer_loop-Forwarded :
    {tls : Tls} (i : ℕ) (ds : List Datagram) (j : ℕ) (st : St)
    → IsStarted i (threads st) tls
    → HoldsFrom st.world.peers_io.rx st.world.message_mem j ds
    → st.world.clients_io.tx_length + length ds ≤ st.world.clients_io.tx.capacity
    → (st' : St) × (peer_loop tls (length ds) j st ≡ ok st')
      × Forwarded (forwards (table_of st) ds) (length ds) st st'
unfolding peer_loop forwards
peer_loop-Forwarded i [] j st s h room = (
  st,
  refl,
  record {
    queued = sym (append-nil (queue st.world));
    grown = omega arith;
    kept = record { memory = refl; peers = refl; clients = refl; out = refl; capacity = refl };
    sessions = refl;
    same_threads = refl;
  },
)
peer_loop-Forwarded {tls = tls} i (d ∷ ds) j st s (h, hs) room =
    let (b, st₁, run, f) =
      step-Forwarded i (st.world.peers_io.rx.addresses j) j d st s h (omega (arith, room)) in
    let s₁ : IsStarted i (threads st₁) tls = rw f.same_threads s in
    let hs₁ : HoldsFrom st₁.world.peers_io.rx st₁.world.message_mem (suc j) ds =
      rw (f.kept.peers, f.kept.memory) hs in
    let (st₂, rest, g) =
      peer_loop-Forwarded i ds (suc j) st₁ s₁ hs₁ (omega (arith, room, f.grown, f.kept.capacity)) in
    let g' : Forwarded (forwards (table_of st) ds) (length ds) st₁ st₂ =
      subst (λ x. Forwarded (forwards (λ id. find id x) ds) (length ds) st₁ st₂) f.sessions g in
    (
      st₂,
      rw (run, rest) refl,
      trans-Forwarded (to_session (named (table_of st) (cut d)) (cut d)) (forwards (table_of st) ds)
          (length ds) st st₁ st₂ f g',
    )

pub io_run_peer_receive_frame-Forwarded :
    {tls : Tls} (i : ℕ) (ds : List Datagram) (st : St)
    → IsStarted i (threads st) tls
    → IsWired st.world.peers_io.rx
    → st.world.clients_io.tx_length ≡ 0
    → length ds ≤ st.world.clients_io.tx.capacity
    → (st' : St) × (io_run_peer_receive_frame tls (datagrams ds) st ≡ ok st')
      × Forwarded
          (forwards (table_of st) ds)
          (length ds)
          (record st { world = receive_peers ds st.world })
          st'
unfolding io_run_peer_receive_frame receive_peers
io_run_peer_receive_frame-Forwarded i ds st s w none_yet fits =
    peer_loop-Forwarded i ds 0 (record st { world = receive_peers ds st.world }) s
      (written-HoldsFrom ds 0 st.world.peers_io.rx st.world.message_mem w)
      (omega (arith, none_yet, fits))

-- On a started thread with no message queued and the vectors as they were set up, the receive frame
-- for the peers handles any datagrams up to the capacity without a fault: it queues, in the order of
-- arrival, each datagram whose first eight bytes name a session for the client of that session, and no
-- other; the queued bytes are those received, cut to a region.
pub io_run_peer_receive_frame-forwards :
    {tls : Tls} (i : ℕ) (ds : List Datagram) (st : St)
    → IsStarted i (threads st) tls
    → IsWired st.world.peers_io.rx
    → st.world.clients_io.tx_length ≡ 0
    → length ds ≤ st.world.clients_io.tx.capacity
    → (st' : St) × (io_run_peer_receive_frame tls (datagrams ds) st ≡ ok st')
      × (queue st'.world ≡ forwards (table_of st) ds)
      × (st'.world.clients_io.tx_length ≤ length ds)
      × (st'.relay.sessions ≡ st.relay.sessions)
      × (st'.world.sent ≡ st.world.sent)
unfolding receive_peers messages_from
io_run_peer_receive_frame-forwards i ds st s w none_yet fits =
    let (st', run, f) = io_run_peer_receive_frame-Forwarded i ds st s w none_yet fits in
    (
      st',
      run,
      f.queued ∙ rw none_yet refl,
      omega (arith, f.grown, none_yet),
      f.sessions,
      f.kept.out,
    )
