-- ===== src/Mmsg.antt =====
-- mmsg/relay.hpp and mmsg/relay.cpp: the relay over recvmmsg and sendmmsg, one worker with its message
-- vectors.
pub mod Vectors
pub mod Sending
pub mod Worker
pub mod Startup
mod Examples
