-- ===== src/Libuv/Buffers.antt =====
-- libuv/relay.cpp: `io_buf`, `io_buf_pool` and `relay::alloc_buffer`, for a build with `recvmmsg`
-- (`have_mmsg`). A buffer is its address; its bytes are in `memory`, at `data_of`.
use urn.Prelude.{
  ℕ, suc, ◌*◌, ◌-◌, List, [], Option, none, Outcome, ok, uncaught, ◌>>=◌, ◌>>◌, ensure, ◌==◌, ltb,
  if◌then◌else◌, Address, update, Datagram,
}
use urn.IntrusiveStack
use urn.IntrusiveStack.{Ptr, nullptr, Hooks, write_hook, IntrusiveStack, empty_stack, try_pop}
use urn.Relay.Packet.{Packet}

-- `chunks.size()`
abbrev pub chunks_size : ℕ
chunks_size = 32

abbrev pub data_size : ℕ
data_size = 131072

pub record Session : Type 0 where
  pub client_endpoint : Address

-- `io_buf::chunk`: the packet and the session of a send.
pub record Chunk : Type 0 where
  pub packet : Packet
  pub session : Session

pub record IoBuf : Type 0 where
  pub chunks : ℕ → Option Chunk
  pub ref_count : ℕ

abbrev pub new_io_buf : IoBuf
new_io_buf = record { chunks = λ slot. none; ref_count = 0 }

-- An argument of `uv_udp_send`, which copies the packet's base and length and the address: the request
-- is that of chunk `slot` of the buffer.
pub record Send : Type 0 where
  pub buf : Ptr
  pub slot : ℕ
  pub base : ℕ
  pub len : ℕ
  pub to : Address

-- A thread's `io_bufs` with the store of its buffers: `hooks` is the member `next` of each, `next_new`
-- the address that `new` returns next, `room` how many buffers still fit into the memory. Libuv holds
-- `sending`, the first send first, and has put `sent` on the wire.
pub record Thread : Type 0 where
  pub pool : IntrusiveStack
  pub hooks : Hooks
  pub last_alloc : Ptr
  pub bufs : Ptr → IoBuf
  pub next_new : Ptr
  pub room : ℕ
  pub memory : ℕ → List ℕ
  pub sending : List Send
  pub sent : List Datagram

unfoldable pub thread_init : ℕ → Thread
thread_init room = record {
  pool = empty_stack;
  hooks = λ p. nullptr;
  last_alloc = nullptr;
  bufs = λ p. new_io_buf;
  next_new = 1;
  room = room;
  memory = λ a. [];
  sending = [];
  sent = [];
}

-- `new io_buf`; a failure throws out of a function that is `noexcept`.
unfoldable pub allocate : Thread → Outcome (Ptr × Thread)
allocate t = do
  ensure (ltb 0 t.room) uncaught
  ok (
    t.next_new,
    record t {
      bufs = update t.bufs t.next_new new_io_buf;
      hooks = write_hook t.hooks t.next_new nullptr;
      next_new = suc t.next_new;
      room = t.room - 1;
    },
  )

-- The end of `io_buf_pool::alloc`.
unfoldable pub take_buffer : Ptr → Thread → Thread
take_buffer b t = record t {
  bufs = update t.bufs b (record (t.bufs b) { ref_count = 0 });
  last_alloc = b;
}

unfoldable pub alloc : Thread → Outcome (Ptr × Thread)
unfolding allocate take_buffer
alloc t = do
  let r = try_pop t.pool t.hooks
  (b, t) ← (if r.0 == nullptr then allocate t else ok (r.0, record t { pool = r.1 }))
  ok (b, take_buffer b t)

unfoldable pub release : Ptr → Thread → Thread
release b t =
    let (pool, hooks) = IntrusiveStack.push t.pool b t.hooks in
    record t { pool = pool; hooks = hooks }

abbrev pub data_of : Ptr → ℕ
data_of b = b * data_size

-- `relay::alloc_buffer`: the base of the buffer.
unfoldable pub alloc_buffer : Thread → Outcome (ℕ × Thread)
unfolding alloc
alloc_buffer t = do (b, t) ← alloc t; ok (data_of b, t)
