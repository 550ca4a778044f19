-- ===== src/Demi.antt =====
-- demi/relay.hpp and demi/relay.cpp: the relay over Demikernel queues, one worker.
pub mod Worker
pub mod Startup
mod Examples
