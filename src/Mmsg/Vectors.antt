-- ===== src/Mmsg/Vectors.antt =====
-- mmsg/relay.cpp: `io_vectors`, `io_state` and `io_worker`. The arrays that the pointers name are
-- functions of the index; a region of memory is named by its offset in `message_mem`.
use urn.Prelude.{ℕ, suc, ◌*◌, List, [], ◌∷◌, length, take, Address, no_address, update, Datagram}

abbrev pub k_memory_per_packet : ℕ
k_memory_per_packet = 1024

abbrev pub k_mmsg_capacity : ℕ
k_mmsg_capacity = 65536

pub record IoVectors : Type 0 where
  pub capacity : ℕ
  pub packet_size : ℕ
  pub addresses : ℕ → Address
  pub iov_base : ℕ → ℕ
  pub iov_len : ℕ → ℕ
  pub msg_len : ℕ → ℕ

unfoldable pub io_vectors_init : ℕ → ℕ → IoVectors
io_vectors_init capacity packet_size = record {
  capacity = capacity;
  packet_size = packet_size;
  addresses = λ i. no_address;
  iov_base = λ i. packet_size * i;
  iov_len = λ i. packet_size;
  msg_len = λ i. 0;
}

pub record IoState : Type 0 where
  pub tx_length : ℕ
  pub rx : IoVectors
  pub tx : IoVectors

unfoldable pub io_state_init : ℕ → IoState
unfolding io_vectors_init
io_state_init capacity = record {
  tx_length = 0;
  rx = io_vectors_init capacity k_memory_per_packet;
  tx = io_vectors_init capacity k_memory_per_packet;
}

-- `sent` is what has left through the client socket, the first datagram first.
pub record IoWorker : Type 0 where
  pub message_mem : ℕ → List ℕ
  pub peers_io : IoState
  pub clients_io : IoState
  pub worker_index : ℕ
  pub sent : List Datagram

-- Both states' vectors name the same memory.
unfoldable pub io_worker_init : ℕ → IoWorker
unfolding io_state_init
io_worker_init worker_index = record {
  message_mem = λ offset. [];
  peers_io = io_state_init k_mmsg_capacity;
  clients_io = io_state_init k_mmsg_capacity;
  worker_index = worker_index;
  sent = [];
}

unfoldable pub io_worker_begin_frame : IoWorker → IoWorker
io_worker_begin_frame io = record io { clients_io = record (io.clients_io) { tx_length = 0 } }

-- What the kernel answers to `recvmmsg`: an error, or the datagrams, which it has written to the
-- vectors in order, each cut to the length of its region.
pub data Received : Type 0 where
  recv_error : Received
  datagrams : List Datagram → Received

abbrev pub written : List Datagram → ℕ → IoVectors × (ℕ → List ℕ) → IoVectors × (ℕ → List ℕ)
written [] i (v, mem) = (v, mem)
written (d ∷ ds) i (v, mem) =
    let bytes = take (v.iov_len i) d.bytes in
    written ds (suc i) (
      record v {
        addresses = update v.addresses i d.address;
        msg_len = update v.msg_len i (length bytes);
      },
      update mem (v.iov_base i) bytes,
    )
