-- ===== src/Config.antt =====
-- The command lines of the programs, read by the constructors of `config`: uring, mmsg and demi walk
-- `argv` by hand, libuv reads the arguments from a deque and parses numbers.
pub mod Argv
pub mod Numeric
pub mod Settings
pub mod Results
pub mod Accepted
mod Examples
