-- ===== src/Libuv/Loop/System.antt =====
-- libuv/relay.cpp: any order of reads and of completed sends on a thread, while other threads change
-- the relay's members.
use urn.Prelude.{ℕ, ◌<◌, ◌≡◌, refl, true, List, [], ◌∷◌, ◌++◌, Outcome, ok, arith, length, Datagram}
use mathlib.Core.Path.{subst}
use mathlib.Core.List.{append_assoc, append-nil, perm_middle}
use mathlib.Core.List.Perm
use mathlib.Core.List.{Perm}
use urn.IntrusiveStack.{Ptr, nullptr}
use urn.Relay.Logic.{Tls, Relay, count_out}
use urn.Relay.Logic.Counters.{
  IsStarted, threads, counted, update_this_thread-counted, length-modify,
}
use urn.Relay.Logic.Routing.{table_of}
use urn.Libuv.Buffers.{Session, Send, Thread, thread_init}
use urn.Libuv.Thread.{St, UdpSend, on_sent, on_peer_read, on_client_read, drop_ref}
use urn.Libuv.Loop.{Reads, read, completed, on_wire}
use urn.Libuv.Loop.Owned.{AllIntact}
use urn.Libuv.Loop.Completion.{drop_ref-IsOwned, AllIntact-at}
use urn.Libuv.Loop.Reading.{wires, wires-append, Idle}
use urn.Libuv.Loop.Peers.{routed, datagrams_of, IsData, peer_read-routed}
use urn.Libuv.Loop.Clients.{client_read-Admits}

-- A send that was under way on a thread between two reads is over without an error: the callback counts it, never faults, and gives the reference to
-- its buffer back; what was sent is the datagram that was under way.
pub on_sent-Idle :
    {tls : Tls} (i : ℕ) (free : List Ptr) (before : List Send) (s : Send) (after : List Send)
    (st : St)
    → Idle i tls free st
    → st.world.sending ≡ before ++ (s ∷ after)
    → (free' : List Ptr) × (st' : St) × (on_sent tls s.buf s.slot true
          (record st { world = completed before s after st.world })
        ≡ ok st')
      × Idle i tls free' st'
      × (wires st'.world.memory st'.world.sending ≡ wires st.world.memory (before ++ after))
      × (st'.world.sent ≡ st.world.sent ++ (on_wire s st.world.memory ∷ []))
unfolding on_sent
on_sent-Idle {tls = tls} i free before s after st idle e =
    let (free', o, intact, sending, memory, out) =
      drop_ref-IsOwned before s after free st.world idle.owned idle.intact e in
    let (here, _) =
      AllIntact-at nullptr 0 st.world.bufs before s after
        (subst (AllIntact nullptr 0 st.world.bufs) e idle.intact) in
    let st₁ : St = record st { world = completed before s after st.world } in
    let p = here.chunk.packet in
    let count = update_this_thread-counted i (count_out p) st₁ idle.started in
    (
      free',
      record (counted i (count_out p) st₁) { world = drop_ref s.buf st₁.world },
      rw (here.found, count) refl,
      record {
        started = rw (length-modify i (count_out p) st.relay.per_thread_statistics) idle.started;
        owned = o;
        intact = intact;
      },
      rw (memory, sending) refl,
      out,
    )

-- A new thread, after some others have already been started.
pub thread_init-Idle :
    {tls : Tls} (i room : ℕ) (relay : Relay Session)
    → IsStarted i (length relay.per_thread_statistics) tls
    → Idle i tls [] (record { relay = relay; world = thread_init room })
unfolding thread_init
thread_init-Idle i room relay s = record {
  started = s;
  owned = record {
    stack = refl;
    place = λ p. ground arith;
    dead = λ p _. refl;
    refs = λ p. refl;
    few = λ p. omega arith;
    under_way = λ ne. absurd (ne refl);
    some_new = omega arith;
  };
  intact = tt;
}

module _ (udp_send : UdpSend) (tls : Tls) where
  -- A step of the thread, with the datagrams that it has to forward.
  pub data Step : St → List Datagram → St → Type 0 where
    peers_read :
        (r : Reads) (st st' : St)
        → IsData r
        → (st.world.pool.top_ ≡ nullptr → 0 < st.world.room)
        → read (on_peer_read udp_send tls) r st ≡ ok st'
        → Step st (routed (table_of st) (datagrams_of r)) st'
    clients_read :
        (r : Reads) (st st' : St)
        → IsData r
        → (st.world.pool.top_ ≡ nullptr → 0 < st.world.room)
        → read (on_client_read udp_send tls) r st ≡ ok st'
        → Step st [] st'
    send_done :
        (before : List Send) (s : Send) (after : List Send) (st st' : St)
        → st.world.sending ≡ before ++ (s ∷ after)
        → on_sent tls s.buf s.slot true (record st { world = completed before s after st.world })
          ≡ ok st'
        → Step st [] st'
    other_threads :
        (relay : Relay Session) (st : St)
        → length relay.per_thread_statistics ≡ threads st
        → Step st [] (record st { relay = relay })

  -- The states after some steps, with all that the thread had to forward.
  pub data Reach (i : ℕ) : List Datagram → St → Type 0 where
    started :
        (room : ℕ) (relay : Relay Session)
        → IsStarted i (length relay.per_thread_statistics) tls
        → Reach i [] (record { relay = relay; world = thread_init room })
    next :
        (out ds : List Datagram) (st st' : St)
        → Reach i out st
        → Step st ds st'
        → Reach i (out ++ ds) st'

-- What is on the wire and what is under way, together.
abbrev pub handled : Thread → List Datagram
handled t = t.sent ++ wires t.memory t.sending

pub record Delivers (i : ℕ) (tls : Tls) (out : List Datagram) (st : St) : Type 0 where
  pub free : List Ptr
  pub idle : Idle i tls free st
  pub all_handled : Perm (handled st.world) out

same_end : (run : Outcome St) (a b : St) → run ≡ ok a → run ≡ ok b → a ≡ b
same_end run a b e f = cc

-- A completed send only moves from one side to the other.
handled-completed :
    (sent before after : List Datagram) (d : Datagram)
    → Perm ((sent ++ (d ∷ [])) ++ (before ++ after)) (sent ++ (before ++ (d ∷ after)))
handled-completed sent before after d =
    rw (append_assoc sent (d ∷ []) (before ++ after))
      (Perm.append_left sent (Perm.symm (perm_middle before after)))

module _ (udp_send : UdpSend) (accepts : (t : Thread) (s : Send) → udp_send t s ≡ true) where
  Step-Delivers :
      {tls : Tls} (i : ℕ) (out : List Datagram) (st : St) (ds : List Datagram) (st' : St)
      → Delivers i tls out st
      → Step udp_send tls st ds st'
      → Delivers i tls (out ++ ds) st'
  Step-Delivers {tls = tls} i out st ds st' h (peers_read r _ _ proper room run) =
      let (free', st₁, run₁, idle, p) =
        peer_read-routed udp_send accepts i h.free r st proper h.idle room in
      let to = routed (table_of st) (datagrams_of r) in
      subst (Delivers i tls (out ++ to))
        (same_end (read (on_peer_read udp_send tls) r st) st₁ st' run₁ run)
        (record {
          free = free';
          idle = idle;
          all_handled =
              rw
                (
                  p.same_sent,
                  p.wired,
                  ← append_assoc st.world.sent (wires st.world.memory st.world.sending) to,
                )
                (Perm.append_right to h.all_handled);
        })
  Step-Delivers {tls = tls} i out st ds st' h (clients_read r _ _ proper room run) =
      let (free', st₁, run₁, idle, a) =
        client_read-Admits udp_send i h.free r st proper h.idle room in
      subst (Delivers i tls (out ++ []))
        (same_end (read (on_client_read udp_send tls) r st) st₁ st' run₁ run)
        (record {
          free = free';
          idle = idle;
          all_handled = rw (a.same_sent, a.wired, append-nil out) h.all_handled;
        })
  Step-Delivers {tls = tls} i out st ds st' h (send_done before s after _ _ e run) =
      let (free', st₁, run₁, idle, still, sent) =
        on_sent-Idle i h.free before s after st h.idle e in
      let memory = st.world.memory in
      let d = on_wire s memory in
      subst (Delivers i tls (out ++ []))
        (same_end
          (on_sent tls s.buf s.slot true (record st { world = completed before s after st.world }))
          st₁ st' run₁ run)
        (record {
          free = free';
          idle = idle;
          all_handled =
              rw (sent, still, append-nil out, wires-append memory before after)
                (Perm.trans
                  (handled-completed st.world.sent (wires memory before) (wires memory after) d)
                  (subst (λ ws. Perm (st.world.sent ++ ws) out)
                    (wires-append memory before (s ∷ after))
                    (subst (λ ss. Perm (st.world.sent ++ wires memory ss) out) e h.all_handled)));
        })
  Step-Delivers {tls = tls} i out st ds st' h (other_threads relay _ same) = record {
    free = h.free;
    idle = record {
      started = rw same h.idle.started;
      owned = h.idle.owned;
      intact = h.idle.intact;
    };
    all_handled = rw (append-nil out) h.all_handled;
  }

  -- In every state that a thread reaches by reads, completed sends and changes of the relay's members
  -- by other threads, where `uv_udp_send` accepts every send: the thread is between two reads with each
  -- buffer in the pool or owned by its sends, and the datagrams on the wire and under way are, up to
  -- their order, those that the relay had to forward, each with the bytes received: none is lost,
  -- duplicated or altered by the reuse of buffers.
  pub Reach-Delivers :
      {tls : Tls} (i : ℕ) (out : List Datagram) (st : St)
      → Reach udp_send tls i out st
      → Delivers i tls out st
  Reach-Delivers i _ _ (started room relay s) = record {
    free = [];
    idle = thread_init-Idle i room relay s;
    all_handled = unfold thread_init in Perm.nil;
  }
  Reach-Delivers i _ _ (next out ds st st' r step) =
      Step-Delivers i out st ds st' (Reach-Delivers i out st r) step
