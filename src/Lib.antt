-- ===== src/Lib.antt =====
-- urn: a model of the UDP relay and the theorems about it.
--
-- The program relays datagrams between clients and peers. A client registers by a packet of exactly
-- eight bytes, its session identifier; a peer's packet whose first eight bytes name a registered
-- session is sent on to that session's client. urn/relay.hpp holds this business logic as a class
-- template over a library that does the input and output; uring/, mmsg/, libuv/, demi/ and seastar/
-- each provide such a library and a program.
--
-- The parts:
--   Relay           urn/relay.hpp. `Relay.Logic.Library` is the template parameter `Library`, with
--                   the calls that README.md lists; `Relay.Logic.State` is the relay's members and
--                   the library's world. `Packet` is the identifier in front of a packet,
--                   `Sessions` the map, `Statistics` and `Rate` the counters and their report, and
--                   `Logic` the handlers. A history (`Logic/History`) is a list of calls that any
--                   threads make, one after the other; `Threads` cuts the handlers at the lock of the
--                   session map and interleaves them.
--   Mutex           urn/mutex.hpp: `shared_mutex<true>` and `shared_mutex<false>`.
--   IntrusiveStack  urn/intrusive_stack.hpp. A node is an address, the member `Next` a store.
--   Uring           uring/relay.hpp and uring/relay.cpp. `Context` is `listen_context` with its pool
--                   of events, `Events` the functions on the pool and the ring, `Worker` is
--                   `session::start_send`, the start of `worker` and its loop, `Startup` is `run`, with `listen_context_initialize`'s sockets and registrations.
--                   `Uring.Worker.uring` fills `Relay.Logic.Library`.
--   Mmsg            mmsg/relay.hpp and mmsg/relay.cpp. `Vectors` is `io_vectors`, `io_state` and
--                   `io_worker`, whose two halves name one memory; `Sending` is the loop of
--                   `io_run_client_send_frame` for any answers of `sendmmsg`; `Worker` is
--                   `session::start_send`, the receive frames and the loop of `worker`;
--                   `Startup` is `run` with the functions on sockets, and the start of `worker`.
--   Demi            demi/relay.hpp and demi/relay.cpp. `Worker` is `session::start_send` and the loop
--                   of `worker`, `Startup` is `run`; the calls of Demikernel are inputs.
--   Libuv           libuv/relay.hpp and libuv/relay.cpp. `Buffers` is `io_buf`, `io_buf_pool` and
--                   `relay::alloc_buffer`, `Thread` is `session::start_send`, its callback and the two
--                   receive callbacks of `thread::start`, `Loop` the order in which libuv makes the
--                   calls, `Startup` the relay's constructor, `run` and `thread::start`.
--                   `Libuv.Thread.libuv` fills `Relay.Logic.Library`.
--   Seastar         seastar/main.cpp: `seastar_api` and the two loops of a shard; `Order` is the
--                   order of a shard's steps, `Startup` is `main` with the start and the stop of the
--                   shards.
--   Latch           common/latch.h, and its copy in uring/relay.cpp: `countdown_latch`.
--   Config          the constructors of `config`. `Argv` is the loop that uring/relay.cpp,
--                   mmsg/relay.cpp and demi/relay.cpp share, `Numeric` that of libuv/relay.cpp.
--   Sockets         the operating system's sockets, for the `Startup` of `Uring` and `Mmsg`.
--   Prelude         shared lists, tests and `Outcome`, the result of code that can end the program.
--
-- Numbers are natural numbers with the code's wrap-around written out: the counters modulo 2 ^
-- 64, a completion's length modulo 2 ^ 32. A call that aborts, reads a null pointer or leaves an
-- array's bounds is a `fault` of `Outcome`. All loops are structural recursion on the list they
-- walk over or on a count, so no definition takes fuel.
--
-- The send loop of mmsg/relay.cpp runs over the list of the kernel's answers, and is still
-- running when they are used up; the loops of the workers of mmsg/relay.cpp and demi/relay.cpp
-- run over a list of turns, that of uring/relay.cpp over a list of passes, each with what the
-- kernel completed and the `has_sigint` that the worker reads at its end. The loops of `run` in
-- mmsg/relay.cpp run over the count of the threads that are left. Libuv's reads and completed
-- sends, Seastar's futures and the threads at a latch are step relations, with any order of
-- steps.
--
-- In `Relay.Threads` each of any number of threads has a list of calls to make and a program
-- counter. A step of a thread is one of: the counting of the packet, `lock`, the look for the key
-- in `try_emplace`, the insertion, `unlock`, `lock_shared`, `find`, `unlock_shared`, and the
-- library's calls at the end. A thread's statistics and its part of the library's world are its
-- own. The calls that are left bound the number of steps, so no run is infinite.
--
-- Libuv is modelled for a build with `recvmmsg` (`have_mmsg`), where a buffer holds 32 chunks and
-- the bytes of two regions of 65536: a read hands out at most two datagrams. Where libuv's
-- buffers come from a memory that is out, `new` throws out of a function that is `noexcept`.
--
-- Not modelled: a report that reads and resets the counters while other threads count (the code
-- calls the unlocked counters good enough), the pinning of threads to processors, the joining of
-- threads, the printing of addresses and features, and the benchmark, which measures calls and is
-- no part of the relay. Where `enable_reuse_port` of libuv/relay.cpp depends on the system, the
-- branch with `SO_REUSEPORT` is modelled. Division and printing of floating-point numbers are the
-- parameter `Doubles`; `atoi`, `std::stoull` and the number of the machine's threads are
-- parameters of the configurations.
mod Prelude
pub mod Config
pub mod Demi
pub mod IntrusiveStack
pub mod Latch
pub mod Libuv
pub mod Mmsg
pub mod Mutex
pub mod Relay
pub mod Seastar
pub mod Sockets
pub mod Uring
