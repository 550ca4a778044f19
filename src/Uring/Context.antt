-- ===== src/Uring/Context.antt =====
-- uring/relay.hpp, uring/relay.cpp: the data of a worker. The ring is the list of the entries that were
-- handed to io_uring and have not completed; `messages_buffer` gives the bytes of the region of
-- `memory_per_packet` bytes at an offset.
use urn.Prelude.{ℕ, zero, suc, Bool, List, [], ◌∷◌, ◌==◌, Address, no_address}

abbrev pub num_events : ℕ
num_events = 16

abbrev pub memory_per_packet : ℕ
memory_per_packet = 1024

abbrev pub k_statistics_timeout_ms : ℕ
k_statistics_timeout_ms = 5000

-- `uring::endpoint`; `user_data` is the worker that received the packet.
pub record Endpoint : Type 0 where
  pub address : Address
  pub user_data : ℕ

-- `uring::session`
pub record Session : Type 0 where
  pub client_endpoint : Endpoint

pub data RingEventType : Type 0 where
  invalid client_rx peer_rx peer_tx timer : RingEventType

-- The union of `ring_event`.
pub data EventData : Type 0 where
  rx : (iov_base iov_len : ℕ) → Address → EventData
  timeout : (tv_sec tv_nsec : ℕ) → EventData

pub record RingEvent : Type 0 where
  pub kind : RingEventType
  pub index : ℕ
  pub body : EventData

-- `ring_event` as `= {}` initialises it.
abbrev pub no_event : RingEvent
no_event = record { kind = invalid; index = 0; body = rx 0 0 no_address }

pub data Opcode : Type 0 where
  recvmsg sendmsg poll_timeout : Opcode

-- An entry of the ring: the operation, its socket, the event in `user_data`, the fixed-file flag.
pub record Sqe : Type 0 where
  pub op : Opcode
  pub socket_id : ℕ
  pub event : ℕ
  pub fixed_file : Bool

-- `listen_context`. The back of the vector `free_event_ids` is the head of the list.
pub record Context : Type 0 where
  pub peer_socket : ℕ
  pub client_socket : ℕ
  pub thread_index : ℕ
  pub messages_buffer : ℕ → List ℕ
  pub io_events : ℕ → RingEvent
  pub free_event_ids : List ℕ
  pub ring : List Sqe
  pub unsubmitted : ℕ

-- The loop `for (i = 0; i < num_events; i++) push_back(i)`.
unfoldable pub push_ids : ℕ → List ℕ
push_ids zero = []
push_ids (suc n) = n ∷ push_ids n

-- The fields that `listen_context_initialize` sets, with fixed files: the sockets are the places 0
-- and 1 of the registered table.
unfoldable pub listen_context_initialize : ℕ → Context
unfolding push_ids
listen_context_initialize thread_index = record {
  peer_socket = 0;
  client_socket = 1;
  thread_index = thread_index;
  messages_buffer = λ _. [];
  io_events = λ _. no_event;
  free_event_ids = push_ids num_events;
  ring = [];
  unsubmitted = 0;
}

unfoldable pub is_main_worker : Context → Bool
is_main_worker io = io.thread_index == 0
