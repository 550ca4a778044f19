-- ===== src/Libuv.antt =====
-- libuv/relay.hpp and libuv/relay.cpp: the relay over libuv on Linux, one thread with its buffers.
pub mod Buffers
pub mod Thread
pub mod Loop
pub mod Startup
mod Examples
