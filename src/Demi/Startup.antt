-- ===== src/Demi/Startup.antt =====
-- demi/relay.cpp: `run`, and `worker` from its start to its loop. The calls of Demikernel and of the resolver are
-- a parameter: a descriptor or an error code, and a success or an error code.
pub mod Ready
mod Examples
use urn.Prelude.{
  ℕ, zero, suc, ◌%◌, ◌≤◌, ◌<◌, ◌≡◌, refl, Bool, true, List, Option, none, some, Outcome, ok, fault,
  abort, ◌>>=◌, ◌>>◌, ensure, or_fault, arith, ltb, length, length-replicate,
}
use Prim.Native.String.{String}
use urn.Sockets.{Address, local_client_address, local_peer_address}
use urn.Config.Argv.{Config, demi_config}
use urn.Config.Accepted.{config-bounds}
use urn.Relay.Statistics.{no_statistics}
use urn.Relay.Logic.{Tls, Relay, init, on_thread_start}
use urn.Demi.Worker.{Session, IoWorker, io_worker_init}

-- The answers to the calls.
pub record Calls : Type 0 where
  pub getaddrinfo : Address → Bool
  pub dmtr_socket : Address → Option ℕ
  pub dmtr_bind : ℕ → Address → Bool

-- `io_worker_args`; the relay and the two addresses are those of the process.
pub record IoWorkerArgs : Type 0 where
  pub worker_index : ℕ

-- A worker, with the two sockets that it pops from.
pub record Worker : Type 0 where
  pub peer_socket : ℕ
  pub client_socket : ℕ
  pub io : IoWorker

module _ (calls : Calls) where
  unfoldable pub bindable_address : Address → Outcome (Unit {0})
  bindable_address address = ensure (calls.getaddrinfo address) abort

  unfoldable pub create_udp_socket : Address → Outcome ℕ
  create_udp_socket address = do
    sfd ← or_fault (calls.dmtr_socket address) abort
    ensure (calls.dmtr_bind sfd address) abort
    ok sfd

  -- `io_worker_init` with its sockets.
  unfoldable pub open_worker : IoWorkerArgs → Outcome Worker
  unfolding create_udp_socket
  open_worker args = do
    peer_socket ← create_udp_socket local_peer_address
    client_socket ← create_udp_socket local_client_address
    ok (record {
      peer_socket = peer_socket;
      client_socket = client_socket;
      io = io_worker_init args.worker_index;
    })

  -- `worker` up to its loop.
  unfoldable pub begin_worker : Relay Session → IoWorkerArgs → Outcome (Tls × Worker)
  unfolding open_worker
  begin_worker relay args = do
    state ← open_worker args
    tls ← on_thread_start relay args.worker_index
    ok (tls, state)

  -- `run`: one worker, whatever the number of threads.
  unfoldable pub run : Relay Session → Outcome (Tls × Worker)
  unfolding bindable_address begin_worker
  run relay = do
    bindable_address local_client_address
    bindable_address local_peer_address
    begin_worker relay (record { worker_index = 0 })
