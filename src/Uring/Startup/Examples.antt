-- ===== src/Uring/Startup/Examples.antt =====
-- Tests of the model of `run` in uring/relay.cpp, and its theorem at a concrete command line.
use Prim.Native.String.{String}
use text.Mathlib.Text.{◌==◌ as str_eq}
use urn.Prelude.{ℕ, ◌≡◌, refl, Bool, true, false, List, [], ◌∷◌, some, fault, abort, if◌then◌else◌}
use urn.Latch.{countdown_latch}
use urn.Config.Argv.{Config}
use urn.Sockets.{Socket, edit}
use urn.Uring.Startup.{
  Call, io_uring_register_files, make_worker_args, create_udp_socket, set_option, open_context,
}

abbrev accepts_all : List Socket → Call → Bool
accepts_all sockets call = true

-- A kernel that registers no files.
abbrev no_files : List Socket → Call → Bool
no_files sockets (io_uring_register_files files) = false
no_files sockets call = true

no_registered_files :
    open_context no_files (make_worker_args (countdown_latch 1) 0) [] ≡ fault abort
unfolding open_context create_udp_socket set_option edit
no_registered_files = refl

abbrev atoi : String → ℕ
atoi text = if str_eq text "2" then 2 else 0

abbrev line : List String
line = "--threads" ∷ "2" ∷ []

abbrev two_threads : Config
two_threads = record { client_port = some "3478"; peer_port = some "3479"; threads = 2 }
