-- ===== src/Uring.antt =====
-- uring/relay.hpp and uring/relay.cpp: the relay over io_uring, one worker with its ring and its pool
-- of sixteen events.
pub mod Context
pub mod Events
pub mod Worker
pub mod Startup
mod Examples
