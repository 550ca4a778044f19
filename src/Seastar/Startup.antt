-- ===== src/Seastar/Startup.antt =====
-- seastar/main.cpp: `main`, and `relay_worker::start` up to its loops. Whether a shard can open a
-- channel on a port is a parameter; where it cannot, Seastar throws and the futures that follow
-- fail. All shards have the pointer to the one relay, which takes the number of shards, and a
-- shard's id, as a `uint16_t`.
pub mod Serving
use urn.Prelude.{
  ℕ, ◌%◌, ◌^◌, zero, suc, Bool, List, [], ◌∷◌, Option, Outcome, ok, uncaught, ◌>>=◌, ◌>>◌, ensure,
  replicate,
}
use urn.Relay.Logic.{Tls, Relay, init, on_thread_start}
use urn.Seastar.{Session}

pub data UdpChannel : Type 0 where
  unopened closed : UdpChannel
  opened : ℕ → UdpChannel

pub record RelayWorker : Type 0 where
  pub client_chan : UdpChannel
  pub peer_chan : UdpChannel

-- A worker as it is constructed.
abbrev pub relay_worker : RelayWorker
relay_worker = record { client_chan = unopened; peer_chan = unopened }

module _ (opens : ℕ → ℕ → Bool) where
  abbrev pub make_udp_channel : ℕ → ℕ → Outcome UdpChannel
  make_udp_channel shard port = do ensure (opens shard port) uncaught; ok (opened port)

  unfoldable pub start : Relay Session → ℕ → ℕ → ℕ → RelayWorker → Outcome (RelayWorker × Tls)
  start relay client_port peer_port this_shard_id worker = do
    client_chan ← make_udp_channel this_shard_id client_port
    peer_chan ← make_udp_channel this_shard_id peer_port
    tls ← on_thread_start relay (this_shard_id % 2 ^ 16)
    ok (record worker { client_chan = client_chan; peer_chan = peer_chan }, tls)

  -- `invoke_on_all(&relay_worker::start, relay, ...)`, for the workers from a shard on.
  unfoldable pub invoke_on_all :
      Relay Session → ℕ → ℕ → ℕ → List RelayWorker → Outcome (List (RelayWorker × Tls))
  invoke_on_all relay client_port peer_port shard [] = ok []
  invoke_on_all relay client_port peer_port shard (worker ∷ workers) = do
    begun ← start relay client_port peer_port shard worker
    rest ← invoke_on_all relay client_port peer_port (suc shard) workers
    ok (begun ∷ rest)

  -- `main` on a machine with this many shards: the relay, and the workers of the shards.
  unfoldable pub main : ℕ → Outcome (Relay Session × List (RelayWorker × Tls))
  main smp_count = do
    let relay = init (smp_count % 2 ^ 16)
    workers ← invoke_on_all relay 3478 3479 0 (replicate smp_count relay_worker)
    ok (relay, workers)

unfoldable pub stop : RelayWorker → RelayWorker
stop worker = record worker { client_chan = closed; peer_chan = closed }
