-- ===== src/Mmsg/Worker/Turn.antt =====
-- mmsg/relay.cpp: one turn of the loop of `worker`, from the received datagrams to the sent ones.
use urn.Relay.Logic.Routing.{table_of}
use urn.Prelude.{
  ℕ, zero, suc, ◌≤◌, ◌≡◌, refl, sym, ap, ◌∙◌, Bool, true, false, if◌then◌else◌, List, [], ◌∷◌, ◌++◌,
  Option, none, some, ok, arith, length, Datagram,
}
use mathlib.Core.Path.{fun_ext, subst}
use urn.Relay.Sessions.Laws.{or_else}
use urn.Relay.Statistics.{Doubles}
use urn.Relay.Logic.{Tls}
use urn.Relay.Logic.Counters.{IsStarted, threads}
use urn.Relay.Logic.Reports.{zeroed, threads-zeroed, on_statistics_tick-zeroed}
use urn.Mmsg.Vectors.{Received, IoVectors, IoWorker, datagrams, io_worker_begin_frame}
use urn.Mmsg.Sending.{Answer, messages_from, transmit}
use urn.Mmsg.Sending.Laws.{IsWithin, IsMild, productive, io_run_client_send_frame-all}
use urn.Mmsg.Worker.{
  St, Session, turn, receive_frames, receive_clients, receive_peers, io_run_client_receive_frame,
  io_run_peer_receive_frame, Poll, when_ready, on_timer,
}
use urn.Mmsg.Worker.Receiving.{IsWired, written-HoldsFrom, written-IsWired}
use urn.Mmsg.Worker.Queue.{queue}
use urn.Mmsg.Worker.Forwards.{forwards, io_run_peer_receive_frame-Forwarded}
use urn.Mmsg.Worker.Registrations.{first_client, client_loop-Registers}
use urn.Relay.Logic.Quiet.{Registers}

length-messages_from :
    (tx : IoVectors) (mem : ℕ → List ℕ) (o n : ℕ) → length (messages_from tx mem o n) ≡ n
unfolding messages_from
length-messages_from tx mem o zero = refl
length-messages_from tx mem o (suc n) = ap suc (length-messages_from tx mem (suc o) n)

-- The worker's state at the beginning of a turn's peer frame.
begun : List Datagram → IoWorker → IoWorker
unfolding receive_clients io_worker_begin_frame
begun cs io = receive_clients cs (io_worker_begin_frame io)

clients-Registers :
    {tls : Tls} (i : ℕ) (cs : List Datagram) (st : St)
    → IsStarted i (threads st) tls
    → IsWired st.world.clients_io.rx
    → (st' : St) × (io_run_client_receive_frame tls
          (datagrams cs)
          (record st { world = io_worker_begin_frame st.world })
        ≡ ok st')
      × Registers (first_client cs) (record st { world = begun cs st.world }) st'
unfolding io_run_client_receive_frame receive_clients io_worker_begin_frame begun
clients-Registers i cs st s w =
    client_loop-Registers i cs 0 (record st { world = begun cs st.world }) s
      (written-HoldsFrom cs 0 st.world.clients_io.rx st.world.message_mem w)

-- The table after the client frame.
abbrev pub table_after : List Datagram → St → ℕ → Option Session
table_after cs st id = or_else (table_of st id) (first_client cs id)

-- What the next turn finds as this one did.
pub record Lasts (st st' : St) : Type 0 where
  pub same_threads : threads st' ≡ threads st
  pub clients : IsWired st'.world.clients_io.rx
  pub peers : IsWired st'.world.peers_io.rx
  pub capacity : st'.world.clients_io.tx.capacity ≡ st.world.clients_io.tx.capacity

-- What `poll` finds: a socket with datagrams is ready, and so is an expired timer, whose `read` succeeds.
abbrev pub ready : List Datagram → Option Received
ready [] = none
ready (d ∷ ds) = some (datagrams (d ∷ ds))

abbrev pub poll_of : List Datagram → List Datagram → Bool → Poll
poll_of cs ps expired = record {
  client = ready cs;
  peer = ready ps;
  timer = if expired then some true else none;
}

-- A frame without datagrams does nothing.
ready_clients :
    (tls : Tls) (cs : List Datagram) (st : St)
    → when_ready (ready cs) (io_run_client_receive_frame tls) st
      ≡ io_run_client_receive_frame tls (datagrams cs) st
unfolding io_run_client_receive_frame receive_clients
ready_clients tls [] st = refl
ready_clients tls (c ∷ cs) st = refl

ready_peers :
    (tls : Tls) (ps : List Datagram) (st : St)
    → when_ready (ready ps) (io_run_peer_receive_frame tls) st
      ≡ io_run_peer_receive_frame tls (datagrams ps) st
unfolding io_run_peer_receive_frame receive_peers
ready_peers tls [] st = refl
ready_peers tls (p ∷ ps) st = refl

-- What the end of a turn's receive frames has done, with a report or without.
record Ticks (st st' : St) : Type 0 where
  same_world : st'.world ≡ st.world
  same_sessions : st'.relay.sessions ≡ st.relay.sessions
  same_threads : threads st' ≡ threads st

on_timer-Ticks :
    (d : Doubles) (expired : Bool) (st : St)
    → (st' : St) × (when_ready (if expired then some true else none) (on_timer d) st ≡ ok st')
      × Ticks st st'
unfolding on_timer
on_timer-Ticks d false st =
    (st, refl, record { same_world = refl; same_sessions = refl; same_threads = refl })
on_timer-Ticks d true st =
    let (report, run) = on_statistics_tick-zeroed d 5 st (omega arith) in
    (
      zeroed st,
      rw run refl,
      record { same_world = refl; same_sessions = refl; same_threads = threads-zeroed st },
    )

receive_frames-forwards :
    {tls : Tls} (d : Doubles) (i : ℕ) (cs ps : List Datagram) (expired : Bool) (st : St)
    → IsStarted i (threads st) tls
    → IsWired st.world.clients_io.rx
    → IsWired st.world.peers_io.rx
    → length ps ≤ st.world.clients_io.tx.capacity
    → (st' : St) × (receive_frames d tls (poll_of cs ps expired) st ≡ ok st')
      × (queue st'.world ≡ forwards (table_after cs st) ps)
      × (st'.world.clients_io.tx_length ≤ length ps)
      × ((id : ℕ) → table_of st' id ≡ table_after cs st id)
      × (st'.world.sent ≡ st.world.sent)
      × Lasts st st'
unfolding receive_frames begun receive_clients receive_peers io_worker_begin_frame messages_from
receive_frames-forwards {tls = tls} d i cs ps expired st s wc wp fits =
    let (st₁, run₁, r) = clients-Registers i cs st s wc in
    let s₁ : IsStarted i (threads st₁) tls = rw r.same_threads s in
    let same : st₁.world ≡ begun cs st.world = r.same_world in
    let wired : IsWired st₁.world.peers_io.rx = rw same wp in
    let empty : st₁.world.clients_io.tx_length ≡ 0 = rw same refl in
    let room : length ps ≤ st₁.world.clients_io.tx.capacity = rw same fits in
    let (st₂, run₂, f) = io_run_peer_receive_frame-Forwarded i ps st₁ s₁ wired empty room in
    let q : queue st₂.world ≡ forwards (table_of st₁) ps = f.queued ∙ rw empty refl in
    let (st₃, run₃, t) = on_timer-Ticks d expired st₂ in
    let clients = ready_clients tls cs (record st { world = io_worker_begin_frame st.world }) in
    (
      st₃,
      rw (clients, run₁, ready_peers tls ps st₁, run₂) run₃,
      ap queue t.same_world ∙ q ∙ ap (λ t. forwards t ps) (fun_ext (λ id. r.table id)),
      rw t.same_world (omega (arith, f.grown, empty)),
      (λ id. rw (t.same_sessions, f.sessions) (r.table id)),
      ap (λ io. io.sent) t.same_world ∙ f.kept.out ∙ ap (λ io. io.sent) same,
      record {
        same_threads = t.same_threads ∙ f.same_threads ∙ r.same_threads;
        clients =
            rw (t.same_world, f.kept.clients, same)
              (written-IsWired cs 0 st.world.clients_io.rx st.world.message_mem wc);
        peers =
            rw (t.same_world, f.kept.peers)
              (written-IsWired ps 0 st₁.world.peers_io.rx st₁.world.message_mem wired);
        capacity =
            ap (λ io. io.clients_io.tx.capacity) t.same_world
            ∙ f.kept.capacity
            ∙ ap (λ io. io.clients_io.tx.capacity) same;
      },
    )

pub turn-Lasts :
    {tls : Tls} (d : Doubles) (i : ℕ) (cs ps : List Datagram) (expired : Bool)
    (answers : List Answer) (st : St)
    → IsStarted i (threads st) tls
    → IsWired st.world.clients_io.rx
    → IsWired st.world.peers_io.rx
    → length ps ≤ st.world.clients_io.tx.capacity
    → IsWithin answers (length (forwards (table_after cs st) ps))
    → IsMild answers
    → length (forwards (table_after cs st) ps) ≤ productive answers
    → (st' : St) × (turn d tls (poll_of cs ps expired) answers st ≡ ok (0, st'))
      × (st'.world.sent ≡ st.world.sent ++ forwards (table_after cs st) ps)
      × ((id : ℕ) → table_of st' id ≡ table_after cs st id)
      × Lasts st st'
unfolding turn transmit
turn-Lasts d i cs ps expired answers st s wc wp fits within mild enough =
    let (st₁, run, q, short, table, out, lasts) =
      receive_frames-forwards d i cs ps expired st s wc wp fits in
    let io = st₁.world in
    let n = io.clients_io.tx_length in
    let count : length (forwards (table_after cs st) ps) ≡ n =
      ap length (sym q) ∙ length-messages_from io.clients_io.tx io.message_mem 0 n in
    let sent =
      io_run_client_send_frame-all answers io (subst (IsWithin answers) count within) mild
        (omega (arith, count, enough)) in
    (
      record st₁ { world = transmit 0 n io },
      rw (run, sent) refl,
      rw (out, q) refl,
      table,
      record {
        same_threads = lasts.same_threads;
        clients = lasts.clients;
        peers = lasts.peers;
        capacity = lasts.capacity;
      },
    )
