-- ===== src/Mmsg/Startup/Binding.antt =====
-- mmsg/relay.cpp: the sockets that the first two loops of `run` make.
use urn.Prelude.{
  ℕ, zero, suc, ◌+◌, ◌*◌, ◌<◌, ◌≡◌, refl, ap, sym, ◌∙◌, Bool, true, false, List, [], ◌∷◌, ◌++◌,
  some, ok, length, length-append, get_elem?, arith,
}
use mathlib.Core.List.{append_assoc, append-nil}
use urn.Sockets.{
  Address, local_client_address, local_peer_address, SocketOption, so_rcvbuf, so_sndbuf,
  so_reuseaddr, so_reuseport, Socket, edit, set_flag, add_option, add_filter, add_address,
  new_socket, edit-at, edit-behind,
}
use urn.Mmsg.Startup.{
  Call, fcntl_getfl, fcntl_setfl, Sockets, set_nonblocking, set_option, create_udp_socket,
  attach_bpf, bind_socket, create_loop, bind_loop,
}

-- A socket of an address, bound to some addresses.
abbrev pub configured : Bool → List Address → Address → Socket
configured filter bound address = record {
  family = address;
  nonblocking = true;
  options = so_rcvbuf ∷ so_sndbuf ∷ so_reuseaddr ∷ so_reuseport ∷ [];
  filter = filter;
  bound = bound;
}

-- A socket with all its options and its filter, bound to its own address only.
abbrev pub ready : Address → Socket
ready address = configured true (address ∷ []) address

-- The sockets for some threads: of each thread first the clients', then the peers'.
abbrev pub created : ℕ → List Socket
created zero = []
created (suc n) =
    configured true [] local_client_address ∷ configured true [] local_peer_address ∷ created n

abbrev pub all_ready : ℕ → List Socket
all_ready zero = []
all_ready (suc n) = ready local_client_address ∷ ready local_peer_address ∷ all_ready n

-- Every second descriptor, from one on.
abbrev pub every_second : ℕ → ℕ → List ℕ
every_second a zero = []
every_second a (suc n) = a ∷ every_second (suc (suc a)) n

pub get-every_second : (a n j : ℕ) → j < n → get_elem? (every_second a n) j ≡ some (a + 2 * j)
get-every_second a zero j h = absurd (omega (arith, h))
get-every_second a (suc n) zero h = ap some (omega arith)
get-every_second a (suc n) (suc j) h =
    get-every_second (suc (suc a)) n j (omega (arith, h)) ∙ ap some (omega arith)

module _ (succeeds : List Socket → Call → Bool)
    (all_succeed : (sockets : List Socket) (call : Call) → succeeds sockets call ≡ true) where
  set_option-at :
      (option : SocketOption) (xs : List Socket) (s : Socket)
      → set_option succeeds (length xs) option (xs ++ (s ∷ []))
        ≡ ok (xs ++ (add_option option s ∷ []))
  unfolding set_option
  set_option-at option xs s = rw (all_succeed, edit-at (add_option option) xs [] s) refl

  set_nonblocking-at :
      (xs : List Socket) (s : Socket)
      → set_nonblocking succeeds (length xs) (xs ++ (s ∷ [])) ≡ ok (xs ++ (set_flag s ∷ []))
  unfolding set_nonblocking
  set_nonblocking-at xs s =
      rw
        (
          all_succeed _ (fcntl_getfl (length xs)),
          all_succeed _ (fcntl_setfl (length xs)),
          edit-at set_flag xs [] s,
        )
        refl

  create_udp_socket-configured :
      (address : Address) (xs : List Socket)
      → create_udp_socket succeeds address xs
        ≡ ok (length xs, xs ++ (configured false [] address ∷ []))
  unfolding create_udp_socket
  create_udp_socket-configured address xs =
      let s₀ = new_socket address in
      let s₁ = set_flag s₀ in
      let s₂ = add_option so_rcvbuf s₁ in
      let s₃ = add_option so_sndbuf s₂ in
      let s₄ = add_option so_reuseaddr s₃ in
      rw
        (
          all_succeed xs _,
          set_nonblocking-at xs s₀,
          set_option-at so_rcvbuf xs s₁,
          set_option-at so_sndbuf xs s₂,
          set_option-at so_reuseaddr xs s₃,
          set_option-at so_reuseport xs s₄,
        )
        refl

  attach_bpf-edit :
      (fd : ℕ) (xs : List Socket) → attach_bpf succeeds fd xs ≡ ok (edit fd add_filter xs)
  unfolding attach_bpf
  attach_bpf-edit fd xs = rw all_succeed refl

  bind_socket-edit :
      (fd : ℕ) (address : Address) (xs : List Socket)
      → bind_socket succeeds fd address xs ≡ ok (edit fd (add_address address) xs)
  unfolding bind_socket
  bind_socket-edit fd address xs = rw all_succeed refl

  -- The two sockets of a thread, with their filters.
  filters :
      (xs : List Socket)
      → let both =
          (xs ++ (configured false [] local_client_address ∷ []))
          ++ (configured false [] local_peer_address ∷ []) in
        edit (suc (length xs)) add_filter (edit (length xs) add_filter both) ≡ xs ++ created 1
  filters xs =
      let c = configured false [] local_client_address in
      let p = configured false [] local_peer_address in
      rw
        (
          append_assoc xs (c ∷ []) (p ∷ []),
          edit-at add_filter xs (p ∷ []) c,
          edit-behind add_filter xs [] (add_filter c) p,
        )
        refl

  pub create_loop-created :
      (n : ℕ) (s : Sockets)
      → let a = length s.sockets in
        create_loop succeeds n s
        ≡ ok (record {
          client_sockets = s.client_sockets ++ every_second a n;
          peer_sockets = s.peer_sockets ++ every_second (suc a) n;
          sockets = s.sockets ++ created n;
        })
  unfolding create_loop
  create_loop-created zero s =
      rw (append-nil s.client_sockets, append-nil s.peer_sockets, append-nil s.sockets) refl
  create_loop-created (suc n) s =
      let xs = s.sockets in
      let a = length xs in
      let c = configured false [] local_client_address in
      let p = configured false [] local_peer_address in
      let both = (xs ++ (c ∷ [])) ++ (p ∷ []) in
      let second : length (xs ++ (c ∷ [])) ≡ suc a = omega (arith, length-append xs (c ∷ [])) in
      let after : length (xs ++ created 1) ≡ suc (suc a) =
        omega (arith, length-append xs (created 1)) in
      rw
        (
          create_udp_socket-configured local_client_address xs,
          create_udp_socket-configured local_peer_address (xs ++ (c ∷ [])),
          second,
          attach_bpf-edit a both,
          attach_bpf-edit (suc a) (edit a add_filter both),
          filters xs,
          create_loop-created n (record {
            client_sockets = s.client_sockets ++ (a ∷ []);
            peer_sockets = s.peer_sockets ++ (suc a ∷ []);
            sockets = xs ++ created 1;
          }),
          after,
          append_assoc s.client_sockets (a ∷ []) (every_second (suc (suc a)) n),
          append_assoc s.peer_sockets (suc a ∷ []) (every_second (suc (suc (suc a))) n),
          append_assoc xs (created 1) (created n),
        )
        refl

  -- The binds of one thread's sockets.
  binds :
      (i n : ℕ) (xs done : List Socket)
      → xs ≡ done ++ created (suc n)
      → length done ≡ 2 * i
      → edit
          (2 * i + 1)
          (add_address local_peer_address)
          (edit (2 * i) (add_address local_client_address) xs)
        ≡ (done ++ all_ready 1) ++ created n
  binds i n xs done k len =
      let c = configured true [] local_client_address in
      let p = configured true [] local_peer_address in
      let here : 2 * i ≡ length done = sym len in
      let next : 2 * i + 1 ≡ suc (length done) = omega (arith, len) in
      rw
        (
          k,
          next,
          here,
          edit-at (add_address local_client_address) done (p ∷ created n) c,
          edit-behind (add_address local_peer_address) done (created n) (ready local_client_address)
              p,
        )
        (sym (append_assoc done (all_ready 1) (created n)))

  pub bind_loop-ready :
      (i n total : ℕ) (s : Sockets) (done : List Socket)
      → s.client_sockets ≡ every_second 0 total
      → s.peer_sockets ≡ every_second 1 total
      → s.sockets ≡ done ++ created n
      → length done ≡ 2 * i
      → i + n ≡ total
      → bind_loop succeeds i n s ≡ ok (record s { sockets = done ++ all_ready n })
  unfolding bind_loop
  bind_loop-ready i zero total s done cs ps k len all = ap (λ k. ok (record s { sockets = k })) k
  bind_loop-ready i (suc n) total s done cs ps k len all =
      let client : get_elem? s.client_sockets i ≡ some (2 * i) =
        ap (λ xs. get_elem? xs i) cs
        ∙ get-every_second 0 total i (omega (arith, all))
        ∙ ap some (omega arith) in
      let peer : get_elem? s.peer_sockets i ≡ some (2 * i + 1) =
        ap (λ xs. get_elem? xs i) ps
        ∙ get-every_second 1 total i (omega (arith, all))
        ∙ ap some (omega arith) in
      let first = edit (2 * i) (add_address local_client_address) s.sockets in
      rw
        (
          client,
          peer,
          bind_socket-edit (2 * i) local_client_address s.sockets,
          bind_socket-edit (2 * i + 1) local_peer_address first,
          binds i n s.sockets done k len,
          bind_loop-ready (suc i) n total
              (record s { sockets = (done ++ all_ready 1) ++ created n }) (done ++ all_ready 1) cs
              ps refl (omega (arith, length-append done (all_ready 1), len)) (omega (arith, all)),
          append_assoc done (all_ready 1) (all_ready n),
        )
        refl
