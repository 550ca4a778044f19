-- ===== src/Seastar/Startup/Serving.antt =====
-- seastar/main.cpp: the shards that `main` starts, and what each of them sends.
use urn.Prelude.{
  ℕ, zero, suc, ◌+◌, ◌≤◌, ◌<◌, ◌≡◌, ◌%◌, ◌^◌, refl, ap, Bool, true, List, [], ◌∷◌, some, ok, length,
  length-replicate, get_elem?, replicate, arith, ltb, Datagram,
}
use urn.Relay.Statistics.{no_statistics}
use urn.Relay.Logic.{Tls, Relay, init, on_thread_start}
use urn.Seastar.{Session, St}
use urn.Seastar.Order.{Reach, InOrder, Reach-InOrder}
use urn.Seastar.Startup.{RelayWorker, opened, relay_worker, start, invoke_on_all, main}

-- A worker whose loops run: a channel on each of the two ports.
abbrev pub listening : RelayWorker
listening = record { client_chan = opened 3478; peer_chan = opened 3479 }

-- The workers of some shards in order, each with its own counters.
listeners : ℕ → ℕ → List (RelayWorker × Tls)
listeners shard zero = []
listeners shard (suc left) = (listening, some shard) ∷ listeners (suc shard) left

get-listeners :
    (first left i shard : ℕ)
    → i < left
    → shard ≡ first + i
    → get_elem? (listeners first left) i ≡ some (listening, some shard)
unfolding listeners
get-listeners first zero i shard h e = absurd (omega arith)
get-listeners first (suc left) zero shard h e =
    let same : first ≡ shard = omega arith in ap (λ k. some (listening, some k)) same
get-listeners first (suc left) (suc i) shard h e =
    get-listeners (suc first) left i shard (omega arith) (omega arith)

length-listeners : (shard left : ℕ) → length (listeners shard left) ≡ left
unfolding listeners
length-listeners shard zero = refl
length-listeners shard (suc left) = ap suc (length-listeners (suc shard) left)

module _ (opens : ℕ → ℕ → Bool) (all_open : (shard port : ℕ) → opens shard port ≡ true) where
  start-listening :
      (relay : Relay Session) (shard : ℕ)
      → shard < length relay.per_thread_statistics
      → shard < 2 ^ 16
      → start opens relay 3478 3479 shard relay_worker ≡ ok (listening, some shard)
  unfolding start on_thread_start
  start-listening relay shard h small =
      let kept : shard % 2 ^ 16 ≡ shard = omega arith in
      let known : ltb (shard % 2 ^ 16) (length relay.per_thread_statistics) ≡ true =
        ground (arith, kept) in
      rw (all_open shard 3478, all_open shard 3479, known) (ap (λ id. ok (listening, some id)) kept)

  invoke_on_all-listeners :
      (relay : Relay Session) (shard left : ℕ)
      → shard + left ≤ length relay.per_thread_statistics
      → shard + left < 2 ^ 16
      → invoke_on_all opens relay 3478 3479 shard (replicate left relay_worker)
        ≡ ok (listeners shard left)
  unfolding invoke_on_all listeners
  invoke_on_all-listeners relay shard zero h small = refl
  invoke_on_all-listeners relay shard (suc left) h small =
      rw
        (
          start-listening relay shard (omega arith) (omega arith),
          invoke_on_all-listeners relay (suc shard) left (omega arith) (omega arith),
        )
        refl

-- Where every shard can open its channels, `main` starts as many workers as there are shards, for
-- any number of them below 2 ^ 16: the worker of each shard listens on the ports 3478 and 3479 and
-- counts for itself. Through any run from there, of its loops, completed sends and changes of the
-- sessions and of their own counters by other shards, it has given its channel what the datagrams of
-- the peers had to be sent as, in their order, each once; and its counter of sent packets is the
-- number of all sends but the one that is under way, modulo 2 ^ 64.
pub main-InOrder :
    (opens : ℕ → ℕ → Bool) (smp_count i n : ℕ) (out : List Datagram) (st : St)
    → ((shard port : ℕ) → opens shard port ≡ true)
    → smp_count < 2 ^ 16
    → i < smp_count
    → Reach smp_count i (some i) n out st
    → (workers : List (RelayWorker × Tls)) × (main opens smp_count ≡ ok (init smp_count, workers))
      × (length workers ≡ smp_count)
      × (get_elem? workers i ≡ some (listening, some i))
      × InOrder i (some i) n out st
unfolding main
main-InOrder opens smp_count i n out st all_open few h r =
    let kept : smp_count % 2 ^ 16 ≡ smp_count = omega arith in
    (
      listeners 0 smp_count,
      rw
          (
            kept,
            invoke_on_all-listeners opens all_open (init smp_count) 0 smp_count
                (unfold init in omega (arith, length-replicate smp_count no_statistics))
                (omega arith),
          )
          refl,
      length-listeners 0 smp_count,
      get-listeners 0 smp_count i i h (omega arith),
      Reach-InOrder i n out st r,
    )
