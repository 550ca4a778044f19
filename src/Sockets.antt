-- ===== src/Sockets.antt =====
-- The sockets of mmsg/relay.cpp and uring/relay.cpp. The operating system is the list of the sockets that it has
-- given out, a descriptor the index of one.
use urn.Prelude.{
  ℕ, zero, suc, ◌≡◌, refl, ap, Bool, true, false, List, [], ◌∷◌, ◌++◌, length, get_elem?, some, ◌≢◌,
  arith,
}

-- The two addresses that `run` asks for, by the ports 3478 and 3479.
pub data Address : Type 0 where
  local_client_address local_peer_address : Address

-- The options that `create_udp_socket` sets.
pub data SocketOption : Type 0 where
  so_rcvbuf so_sndbuf so_reuseaddr so_reuseport : SocketOption

pub record Socket : Type 0 where
  pub family : Address
  pub nonblocking : Bool
  pub options : List SocketOption
  pub filter : Bool
  pub bound : List Address

-- One descriptor's socket changes.
unfoldable pub edit : ℕ → (Socket → Socket) → List Socket → List Socket
edit fd f [] = []
edit zero f (s ∷ rest) = f s ∷ rest
edit (suc fd) f (s ∷ rest) = s ∷ edit fd f rest

abbrev pub set_flag : Socket → Socket
set_flag s = record s { nonblocking = true }

abbrev pub add_option : SocketOption → Socket → Socket
add_option option s = record s { options = s.options ++ (option ∷ []) }

abbrev pub add_filter : Socket → Socket
add_filter s = record s { filter = true }

abbrev pub add_address : Address → Socket → Socket
add_address address s = record s { bound = s.bound ++ (address ∷ []) }

abbrev pub new_socket : Address → Socket
new_socket address = record {
  family = address;
  nonblocking = false;
  options = [];
  filter = false;
  bound = [];
}

pub edit-at :
    (f : Socket → Socket) (xs ys : List Socket) (s : Socket)
    → edit (length xs) f (xs ++ (s ∷ ys)) ≡ xs ++ (f s ∷ ys)
unfolding edit
edit-at f [] ys s = refl
edit-at f (x ∷ xs) ys s = ap (λ r. x ∷ r) (edit-at f xs ys s)

pub edit-behind :
    (f : Socket → Socket) (xs ys : List Socket) (r s : Socket)
    → edit (suc (length xs)) f (xs ++ (r ∷ s ∷ ys)) ≡ xs ++ (r ∷ f s ∷ ys)
unfolding edit
edit-behind f [] ys r s = refl
edit-behind f (x ∷ xs) ys r s = ap (λ t. x ∷ t) (edit-behind f xs ys r s)

-- An edit shows at its descriptor, and at no other.
pub get-edit_self :
    (fd : ℕ) (f : Socket → Socket) (xs : List Socket) {s : Socket}
    → get_elem? xs fd ≡ some s
    → get_elem? (edit fd f xs) fd ≡ some (f s)
unfolding edit
get-edit_self fd f [] h = cc
get-edit_self zero f (x ∷ xs) h = ground arith
get-edit_self (suc fd) f (x ∷ xs) h = get-edit_self fd f xs h

pub get-edit_ne :
    (fd j : ℕ) (f : Socket → Socket) (xs : List Socket)
    → fd ≢ j
    → get_elem? (edit fd f xs) j ≡ get_elem? xs j
unfolding edit
get-edit_ne fd j f [] ne = refl
get-edit_ne zero zero f (x ∷ xs) ne = absurd (ne refl)
get-edit_ne zero (suc j) f (x ∷ xs) ne = refl
get-edit_ne (suc fd) zero f (x ∷ xs) ne = refl
get-edit_ne (suc fd) (suc j) f (x ∷ xs) ne = get-edit_ne fd j f xs (λ e. ne (ap suc e))
