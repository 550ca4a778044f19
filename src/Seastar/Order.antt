-- ===== src/Seastar/Order.antt =====
-- seastar/main.cpp: a shard over any run of its loops, and the sends that it counts.
use urn.Prelude.{
  zero, ◌<◌, ◌%◌, get_elem?, replicate, length-replicate, ℕ, suc, ◌+◌, ◌≡◌, refl, ap, ◌∙◌, List, [],
  ◌++◌, some, inl, inr, Outcome, ok, length, length-append, Bool-cases, ltb, arith, Datagram,
}
use mathlib.Core.Path.{subst}
use mathlib.Core.Option
use urn.Relay.Packet.{Packet}
use urn.Relay.Statistics.{Statistics, no_statistics, size_mod, update_io_statistics}
use urn.Relay.Logic.{Tls, Relay, init, count_in, count_out, on_thread_start}
use urn.Relay.Logic.Counters.{
  IsStarted, threads, counted, modify, get_elem?-modify_self, length-modify,
}
use urn.Relay.Logic.Routing.{table_of}
use urn.Seastar.{
  Session, UdpDatagram, receiving, sending, St, packet_of, on_client_datagram, on_peer_datagram,
  on_sent,
}
use urn.Seastar.Channel.{
  forwarded, under_way, on_peer_datagram-Forwards, on_client_datagram-Takes, on_sent-counted,
}

-- The states of a shard that is thread `i` of a relay for some shards: `n` is the number of completed
-- sends, and the list is all that the datagrams of the peers had to be sent as. The other shards change
-- the sessions and their own counters.
pub data Reach (smp_count : ℕ) (i : ℕ) (tls : Tls) : ℕ → List Datagram → St → Type 0 where
  start :
      on_thread_start (init {Session = Session} smp_count) i ≡ ok tls
      → Reach smp_count i tls 0 [] (record {
        relay = init smp_count;
        world = record { peer_loop = receiving; channel = [] };
      })
  client_step :
      (n : ℕ) (out : List Datagram) (dgram : UdpDatagram) (st st' : St)
      → Reach smp_count i tls n out st
      → on_client_datagram tls dgram st ≡ ok st'
      → Reach smp_count i tls n out st'
  peer_step :
      (n : ℕ) (out : List Datagram) (dgram : UdpDatagram) (st st' : St)
      → Reach smp_count i tls n out st
      → st.world.peer_loop ≡ receiving
      → on_peer_datagram tls dgram st ≡ ok st'
      → Reach smp_count i tls n (out ++ forwarded (table_of st) dgram) st'
  sent_step :
      (n : ℕ) (out : List Datagram) (stat_packet : Packet) (st st' : St)
      → Reach smp_count i tls n out st
      → st.world.peer_loop ≡ sending stat_packet
      → on_sent tls stat_packet st ≡ ok st'
      → Reach smp_count i tls (suc n) out st'
  other_shards :
      (n : ℕ) (out : List Datagram) (relay : Relay Session) (st : St)
      → Reach smp_count i tls n out st
      → length relay.per_thread_statistics ≡ threads st
      → get_elem? relay.per_thread_statistics i ≡ get_elem? st.relay.per_thread_statistics i
      → Reach smp_count i tls n out (record st { relay = relay })

-- The thread has counted so many sends.
abbrev pub HasCounted : ℕ → ℕ → List Statistics → Type 0
HasCounted i n counters =
    (s : Statistics) × (get_elem? counters i ≡ some s) × (s.egress.packets ≡ n % size_mod)

pub record InOrder (i : ℕ) (tls : Tls) (n : ℕ) (out : List Datagram) (st : St) : Type 0 where
  pub is_started : IsStarted i (threads st) tls
  pub channel : st.world.channel ≡ out
  pub completed : n + under_way st.world.peer_loop ≡ length out
  pub counted_sends : HasCounted i n st.relay.per_thread_statistics

same_end : (run : Outcome St) (a b : St) → run ≡ ok a → run ≡ ok b → a ≡ b
same_end run a b e f = cc

get-replicate : (n i : ℕ) → i < n → get_elem? (replicate n no_statistics) i ≡ some no_statistics
get-replicate zero i h = absurd (omega arith)
get-replicate (suc n) zero h = refl
get-replicate (suc n) (suc i) h = get-replicate n i (omega arith)

count_in-HasCounted :
    (i n : ℕ) (p : Packet) (counters : List Statistics)
    → HasCounted i n counters
    → HasCounted i n (modify i (count_in p) counters)
unfolding count_in
count_in-HasCounted i n p counters (s, e, sends) = (
  count_in p s,
  get_elem?-modify_self i (count_in p) counters ∙ ap (Option.map (count_in p)) e,
  sends,
)

count_out-HasCounted :
    (i n : ℕ) (p : Packet) (counters : List Statistics)
    → HasCounted i n counters
    → HasCounted i (suc n) (modify i (count_out p) counters)
unfolding count_out update_io_statistics
count_out-HasCounted i n p counters (s, e, sends) = (
  count_out p s,
  get_elem?-modify_self i (count_out p) counters ∙ ap (Option.map (count_out p)) e,
  omega (arith, sends),
)

-- In every state that a started shard reaches by iterations of its loops, completed sends and changes of
-- the relay by other shards, the channel has had what the datagrams of the peers had to be sent as, in
-- their order, each once; and the shard's counter of sent packets is the number of all sends but the
-- one that is under way, modulo 2 ^ 64.
pub Reach-InOrder :
    {smp_count : ℕ} {tls : Tls} (i n : ℕ) (out : List Datagram) (st : St)
    → Reach smp_count i tls n out st
    → InOrder i tls n out st
unfolding on_thread_start init
Reach-InOrder {smp_count} i _ _ _ (start run) =
    let many = length-replicate smp_count no_statistics in
    elim (Bool-cases (ltb i (length (replicate smp_count no_statistics)))) [
      | inl known ↦ record {
        is_started = record { is_set = ground arith; in_range = ground arith };
        channel = refl;
        completed = refl;
        counted_sends =
            (no_statistics, get-replicate smp_count i (ground (arith, many)), omega arith);
      }
      | inr unknown ↦ absurd (ground arith)
    ]
Reach-InOrder {tls} i _ _ _ (client_step n out dgram st st' r run) =
    let h = Reach-InOrder i n out st r in
    let (st₁, run₁, g) = on_client_datagram-Takes i dgram st h.is_started in
    let p = packet_of dgram in
    subst (InOrder i tls n out) (same_end (on_client_datagram tls dgram st) st₁ st' run₁ run)
      (record {
        is_started =
            rw (g.counters, length-modify i (count_in p) st.relay.per_thread_statistics)
              h.is_started;
        channel = rw g.same_world h.channel;
        completed = rw g.same_world h.completed;
        counted_sends =
            rw g.counters
              (count_in-HasCounted i n p st.relay.per_thread_statistics h.counted_sends);
      })
Reach-InOrder {tls} i _ _ _ (peer_step n out dgram st st' r at run) =
    let h = Reach-InOrder i n out st r in
    let (st₁, run₁, f) = on_peer_datagram-Forwards i dgram st h.is_started at in
    let now = forwarded (table_of st) dgram in
    let p = packet_of dgram in
    let busy : under_way st₁.world.peer_loop ≡ length now = f.busy in
    subst (InOrder i tls n (out ++ now)) (same_end (on_peer_datagram tls dgram st) st₁ st' run₁ run)
      (record {
        is_started =
            rw (f.relay, length-modify i (count_in p) st.relay.per_thread_statistics) h.is_started;
        channel = f.channel ∙ ap (λ c. c ++ now) h.channel;
        completed = omega (arith, busy, h.completed, ap under_way at, length-append out now);
        counted_sends =
            rw f.relay (count_in-HasCounted i n p st.relay.per_thread_statistics h.counted_sends);
      })
Reach-InOrder {tls} i _ _ _ (sent_step n out p st st' r at run) =
    let h = Reach-InOrder i n out st r in
    let st₁ : St = record (counted i (count_out p) st) {
      world = record (st.world) { peer_loop = receiving };
    } in
    subst (InOrder i tls (suc n) out)
      (same_end (on_sent tls p st) st₁ st' (on_sent-counted i p st h.is_started) run)
      (record {
        is_started = rw (length-modify i (count_out p) st.relay.per_thread_statistics) h.is_started;
        channel = h.channel;
        completed = omega (arith, h.completed, ap under_way at);
        counted_sends = count_out-HasCounted i n p st.relay.per_thread_statistics h.counted_sends;
      })
Reach-InOrder i _ _ _ (other_shards n out relay st r same own) =
    let h = Reach-InOrder i n out st r in
    record {
      is_started = rw same h.is_started;
      channel = h.channel;
      completed = h.completed;
      counted_sends = (h.counted_sends.0, own ∙ h.counted_sends.1, h.counted_sends.2);
    }
