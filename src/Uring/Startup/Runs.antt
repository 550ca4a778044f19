-- ===== src/Uring/Startup/Runs.antt =====
-- uring/relay.cpp: from the command line to workers that run their loops.
use urn.Prelude.{ℕ, ◌≡◌, Bool, List, [], ◌∷◌, ◌++◌, some, ok, get_elem?}
use Prim.Native.String.{String}
use urn.Config.Argv.{Config}
use urn.Sockets.{local_client_address, local_peer_address, Socket}
use urn.Relay.Logic.{init}
use urn.Latch.{countdown_latch}
use urn.Uring.Startup.{Call, WorkerArgs, ListenContext, open_context}
use urn.Uring.Startup.Ready.{configured, both, Begun}

-- Each latch waits for this many threads.
abbrev pub AllWaitFor : ℕ → List WorkerArgs → Type 0
AllWaitFor n [] = Unit {0}
AllWaitFor n (args ∷ rest) = (args.startup_latch ≡ countdown_latch n) × AllWaitFor n rest

module _ (succeeds : List Socket → Call → Bool) where
  -- A worker opens its context among any sockets, and begins once it is let through the latch.
  abbrev pub Starts : ℕ → WorkerArgs → Type 0
  Starts n args =
      (xs : List Socket)
      → (io : ListenContext) × (open_context succeeds args xs ≡ ok (io, xs ++ both))
        × ((ys : List Socket)
            → get_elem? ys io.client_socket_fd ≡ some (configured local_client_address [])
            → get_elem? ys io.peer_socket_fd ≡ some (configured local_peer_address [])
            → Begun succeeds args.thread_index io (init n) ys)

  abbrev pub AllStart : ℕ → List WorkerArgs → Type 0
  AllStart n [] = Unit {0}
  AllStart n (args ∷ rest) = Starts n args × AllStart n rest
