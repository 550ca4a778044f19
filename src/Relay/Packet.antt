-- ===== src/Relay/Packet.antt =====
-- urn/relay.hpp: what the relay asks of a packet, `data()` and `size()`, and `get_session_id`.
pub mod Laws
use urn.Prelude.{
  ℕ, zero, suc, ◌+◌, ◌*◌, ◌/◌, ◌%◌, List, [], ◌∷◌, ◌++◌, Option, none, some, Outcome, or_fault,
  out_of_bounds,
}
use mathlib.Core.Option

-- `address` is what `data()` returns, `content` the bytes that can be read from there on; `length` is
-- what `size()` returns. Nothing forces the two to agree.
pub record Packet : Type 0 where
  pub address : ℕ
  pub content : List ℕ
  pub length : ℕ

-- `sizeof(session_id)`
abbrev pub sizeof_session_id : ℕ
sizeof_session_id = 8

-- The unsigned number in the first bytes of memory, the lowest byte first.
unfoldable pub read_le : ℕ → List ℕ → Option ℕ
read_le zero bytes = some 0
read_le (suc n) [] = none
read_le (suc n) (b ∷ bytes) = Option.map (λ v. b + 256 * v) (read_le n bytes)

-- `*reinterpret_cast<const session_id *>(data)` on a little-endian machine; a read past the end of
-- the memory is undefined.
unfoldable pub get_session_id : List ℕ → Outcome ℕ
unfolding read_le
get_session_id bytes = or_fault (read_le sizeof_session_id bytes) out_of_bounds

-- What a client or a peer writes to name a session: the number in `n` bytes, the lowest first.
unfoldable pub write_le : ℕ → ℕ → List ℕ
write_le zero v = []
write_le (suc n) v = (v % 256) ∷ write_le n (v / 256)
