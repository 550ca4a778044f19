-- ===== src/Uring/Startup/Ready.antt =====
-- uring/relay.cpp: what a worker has when its loop begins.
use urn.Prelude.{
  ℕ, suc, ◌*◌, ◌<◌, ◌≡◌, ◌≢◌, refl, ◌∙◌, Bool, true, false, List, [], ◌∷◌, ◌++◌, some, ok, length,
  length-append, length-replicate, get_elem?, arith, ltb,
}
use mathlib.Core.List.{append_assoc}
use urn.Relay.Statistics.{no_statistics}
use urn.Sockets.{
  Address, local_client_address, local_peer_address, SocketOption, so_rcvbuf, so_sndbuf,
  so_reuseaddr, so_reuseport, Socket, edit, add_option, add_address, new_socket, edit-at,
  get-edit_self, get-edit_ne,
}
use urn.Relay.Logic.{Relay, init, on_thread_start}
use urn.Latch.{countdown_latch}
use urn.Uring.Context.{Context, Session, listen_context_initialize, num_events, memory_per_packet}
use urn.Uring.Worker.Invariant.{Settled, nothing}
use urn.Uring.Worker.Starting.{start_receives-Settled}
use urn.Uring.Startup.{
  Call, io_uring_queue_init_params, io_uring_register_files, io_uring_register_buffers, WorkerArgs,
  ListenContext, set_option, create_udp_socket, bind_socket, open_context, begin_worker,
  make_worker_args, run,
}

-- A socket with all its options, bound to some addresses.
abbrev pub configured : Address → List Address → Socket
configured address bound = record {
  family = address;
  nonblocking = false;
  options = so_rcvbuf ∷ so_sndbuf ∷ so_reuseaddr ∷ so_reuseport ∷ [];
  filter = false;
  bound = bound;
}

abbrev pub ready : Address → Socket
ready address = configured address (address ∷ [])

-- The context that a worker opens among some sockets.
abbrev pub opened : WorkerArgs → List Socket → ListenContext
opened args xs = record {
  worker_info = args;
  client_socket_fd = length xs;
  peer_socket_fd = suc (length xs);
  files = suc (length xs) ∷ length xs ∷ [];
  buffer_bytes = num_events * memory_per_packet;
  context = listen_context_initialize args.thread_index;
}

abbrev pub both : List Socket
both = configured local_client_address [] ∷ configured local_peer_address [] ∷ []

-- A worker that has begun: it has the statistics of its index, its ring holds the first receives, a
-- registered file stands for each of its sockets, these are set up and bound to their own
-- addresses, and no other worker's socket has changed.
pub record Begun (succeeds : List Socket → Call → Bool) (i : ℕ) (io : ListenContext)
    (relay : Relay Session) (ys : List Socket) : Type 0 where
  pub context : Context
  pub sockets : List Socket
  pub begins : begin_worker succeeds relay io ys ≡ ok (some i, context, sockets)
  pub settled : Settled context [] nothing
  pub client_file : get_elem? io.files io.context.client_socket ≡ some io.client_socket_fd
  pub peer_file : get_elem? io.files io.context.peer_socket ≡ some io.peer_socket_fd
  pub client_ready : get_elem? sockets io.client_socket_fd ≡ some (ready local_client_address)
  pub peer_ready : get_elem? sockets io.peer_socket_fd ≡ some (ready local_peer_address)
  pub others :
      (fd : ℕ)
      → io.client_socket_fd ≢ fd
      → io.peer_socket_fd ≢ fd
      → get_elem? sockets fd ≡ get_elem? ys fd

module _ (succeeds : List Socket → Call → Bool)
    (all_succeed : (sockets : List Socket) (call : Call) → succeeds sockets call ≡ true) where
  set_option-at :
      (option : SocketOption) (xs : List Socket) (s : Socket)
      → set_option succeeds (length xs) option (xs ++ (s ∷ []))
        ≡ ok (xs ++ (add_option option s ∷ []))
  unfolding set_option
  set_option-at option xs s = rw (all_succeed, edit-at (add_option option) xs [] s) refl

  create_udp_socket-configured :
      (address : Address) (xs : List Socket)
      → create_udp_socket succeeds address xs ≡ ok (length xs, xs ++ (configured address [] ∷ []))
  unfolding create_udp_socket
  create_udp_socket-configured address xs =
      let s₀ = new_socket address in
      let s₁ = add_option so_rcvbuf s₀ in
      let s₂ = add_option so_sndbuf s₁ in
      let s₃ = add_option so_reuseaddr s₂ in
      rw
        (
          all_succeed xs _,
          set_option-at so_rcvbuf xs s₀,
          set_option-at so_sndbuf xs s₁,
          set_option-at so_reuseaddr xs s₂,
          set_option-at so_reuseport xs s₃,
        )
        refl

  bind_socket-edit :
      (fd : ℕ) (address : Address) (xs : List Socket)
      → bind_socket succeeds fd address xs ≡ ok (edit fd (add_address address) xs)
  unfolding bind_socket
  bind_socket-edit fd address xs = rw all_succeed refl

  open_context-opened :
      (args : WorkerArgs) (xs : List Socket)
      → open_context succeeds args xs ≡ ok (opened args xs, xs ++ both)
  unfolding open_context
  open_context-opened args xs =
      let c = configured local_client_address [] in
      let p = configured local_peer_address [] in
      let second : length (xs ++ (c ∷ [])) ≡ suc (length xs) =
        omega (arith, length-append xs (c ∷ [])) in
      rw
        (
          all_succeed xs io_uring_queue_init_params,
          create_udp_socket-configured local_client_address xs,
          create_udp_socket-configured local_peer_address (xs ++ (c ∷ [])),
          second,
          append_assoc xs (c ∷ []) (p ∷ []),
          all_succeed (xs ++ both) (io_uring_register_files (suc (length xs) ∷ length xs ∷ [])),
          all_succeed (xs ++ both) (io_uring_register_buffers (num_events * memory_per_packet)),
        )
        refl

  -- Where all calls succeed, a worker with an index below the number of threads opens its context among
  -- any sockets, and then, with any sockets that still hold its own two as it made them, it
  -- begins.
  pub open_context-Begun :
      (n i : ℕ) (xs : List Socket)
      → i < n
      → (io : ListenContext) × (open_context succeeds (make_worker_args (countdown_latch n) i) xs
          ≡ ok (io, xs ++ both))
        × ((ys : List Socket)
            → get_elem? ys io.client_socket_fd ≡ some (configured local_client_address [])
            → get_elem? ys io.peer_socket_fd ≡ some (configured local_peer_address [])
            → Begun succeeds i io (init n) ys)
  unfolding begin_worker on_thread_start init
  open_context-Begun n i xs lt =
      let args = make_worker_args (countdown_latch n) i in
      let (context, run, settled, _, _) = start_receives-Settled i in
      (
        opened args xs,
        open_context-opened args xs,
        λ ys client peer.
            let fd = length xs in
            let first = edit fd (add_address local_client_address) ys in
            let known : ltb i (length (init {Session = Session} n).per_thread_statistics) ≡ true =
              ground (arith, length-replicate n no_statistics) in
            record {
              context = context;
              sockets = edit (suc fd) (add_address local_peer_address) first;
              begins =
                  rw
                    (
                      bind_socket-edit fd local_client_address ys,
                      bind_socket-edit (suc fd) local_peer_address first,
                      known,
                      run,
                    )
                    refl;
              settled = settled;
              client_file = unfold listen_context_initialize in refl;
              peer_file = unfold listen_context_initialize in refl;
              client_ready =
                  get-edit_ne (suc fd) fd (add_address local_peer_address) first (omega arith)
                  ∙ get-edit_self fd (add_address local_client_address) ys client;
              peer_ready = get-edit_self (suc fd) (add_address local_peer_address) first (
                  get-edit_ne fd (suc fd) (add_address local_client_address) ys (omega arith)
                  ∙ peer);
              others = λ j ne ne'.
                  get-edit_ne (suc fd) j (add_address local_peer_address) first ne'
                  ∙ get-edit_ne fd j (add_address local_client_address) ys ne;
            },
      )
