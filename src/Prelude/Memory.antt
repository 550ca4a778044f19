-- ===== src/Prelude/Memory.antt =====
-- Socket addresses, and stores that are functions.
use Prim.Native.Nat.{ℕ}
use mathlib.Core.List.{List}
use urn.Prelude.Tests.{◌==◌, if◌then◌else◌}

-- `sockaddr_in`
pub record Address : Type 0 where
  pub sin_addr : ℕ
  pub sin_port : ℕ

abbrev pub no_address : Address
no_address = record { sin_addr = 0; sin_port = 0 }

-- A datagram with the address that it comes from or goes to.
pub record Datagram : Type 0 where
  pub address : Address
  pub bytes : List ℕ

abbrev pub update : {A : Type 0} → (ℕ → A) → ℕ → A → ℕ → A
update f i a j = if i == j then a else f j
