-- ===== src/Relay/Packet/Laws.antt =====
-- Reading a session identifier back from a packet.
use urn.Prelude.{
  ℕ, zero, suc, ◌+◌, ◌*◌, ◌/◌, ◌^◌, ◌≤◌, ◌<◌, ◌≡◌, refl, ap, List, [], ◌∷◌, ◌++◌, some, arith,
  length, ok,
}
use native.Mathlib.Nat.{pow-suc}
use urn.Relay.Packet.{read_le, write_le, get_session_id, sizeof_session_id}

read_le-write_le :
    (n v : ℕ) (rest : List ℕ) → v < 256 ^ n → read_le n (write_le n v ++ rest) ≡ some v
unfolding read_le write_le
read_le-write_le zero v rest h = ap some (omega arith)
read_le-write_le (suc n) v rest h =
    rw (read_le-write_le n (v / 256) rest (omega (arith, pow-suc 256 n))) (ap some (omega arith))

-- A 64-bit identifier written in front of any payload is read back unchanged.
pub get_session_id-write_le :
    (id : ℕ) (payload : List ℕ)
    → id < 2 ^ 64
    → get_session_id (write_le sizeof_session_id id ++ payload) ≡ ok id
unfolding get_session_id
get_session_id-write_le id payload h = rw (read_le-write_le 8 id payload h)

-- Memory of at least eight bytes has an identifier.
pub read_le-total : (n : ℕ) (xs : List ℕ) → n ≤ length xs → (v : ℕ) × (read_le n xs ≡ some v)
unfolding read_le
read_le-total zero xs h = (0, refl)
read_le-total (suc n) [] h = absurd (omega arith)
read_le-total (suc n) (b ∷ xs) h =
    let (v, e) = read_le-total n xs (omega arith) in (b + 256 * v, rw e)

pub get_session_id-total :
    (xs : List ℕ) → sizeof_session_id ≤ length xs → (id : ℕ) × (get_session_id xs ≡ ok id)
unfolding get_session_id
get_session_id-total xs h = let (v, e) = read_le-total 8 xs h in (v, rw e)

pub length-write_le : (n v : ℕ) → length (write_le n v) ≡ n
unfolding write_le
length-write_le zero v = refl
length-write_le (suc n) v = ap suc (length-write_le n (v / 256))
