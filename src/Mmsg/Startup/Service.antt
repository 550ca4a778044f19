-- ===== src/Mmsg/Startup/Service.antt =====
-- mmsg/relay.cpp: a worker from its start through any number of turns.
use urn.Prelude.{ℕ, ◌>>=◌}
use urn.Relay.Logic.{init}
use urn.Mmsg.Vectors.{io_worker_init}
use urn.Mmsg.Worker.{St}

-- The state that a worker's loop begins with, when no other worker has changed the relay.
abbrev pub first_state : ℕ → ℕ → St
first_state n i = record { relay = init n; world = io_worker_init i }
