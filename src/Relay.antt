-- ===== src/Relay.antt =====
-- urn/relay.hpp: the business logic `urn::relay<Library, MultiThreaded>`, by its parts.
pub mod Packet
pub mod Statistics
pub mod Rate
pub mod Sessions
pub mod Logic
pub mod Threads
mod Examples
