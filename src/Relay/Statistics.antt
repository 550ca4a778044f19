-- ===== src/Relay/Statistics.antt =====
-- urn/relay.hpp: `struct statistics`, its methods, `update_io_statistics` and `load_statistics`.
-- A `size_t` is a number below 2 ^ 64; the sums wrap.
pub mod Laws
pub mod Distribution
use urn.Prelude.{
  ℕ, zero, suc, ◌+◌, ◌%◌, ◌^◌, List, [], ◌∷◌, ◌++◌, Bool, ◌==◌, if◌then◌else◌, not, map,
}

abbrev pub size_mod : ℕ
size_mod = 2 ^ 64

pub record Direction : Type 0 where
  pub packets : ℕ
  pub bytes : ℕ

-- The members `in` and `out`.
pub record Statistics : Type 0 where
  pub ingress : Direction
  pub egress : Direction

abbrev pub no_direction : Direction
no_direction = record { packets = 0; bytes = 0 }

abbrev pub no_statistics : Statistics
no_statistics = record { ingress = no_direction; egress = no_direction }

unfoldable pub update_io_statistics : Direction → ℕ → Direction
update_io_statistics dir size = record {
  packets = (dir.packets + 1) % size_mod;
  bytes = (dir.bytes + size) % size_mod;
}

-- Returns `*this` after the call, and `dest`.
unfoldable pub get_and_reset_into : Statistics → Statistics × Statistics
get_and_reset_into s = (
  record {
    ingress = record { packets = 0; bytes = 0 };
    egress = record { packets = 0; bytes = 0 };
  },
  record {
    ingress = record { packets = s.ingress.packets; bytes = s.ingress.bytes };
    egress = record { packets = s.egress.packets; bytes = s.egress.bytes };
  },
)

add_direction : Direction → Direction → Direction
add_direction d e = record {
  packets = (e.packets + d.packets) % size_mod;
  bytes = (e.bytes + d.bytes) % size_mod;
}

-- Returns `dest` after the call.
unfoldable pub sum_into : Statistics → Statistics → Statistics
unfolding add_direction
sum_into s dest = record {
  ingress = add_direction s.ingress dest.ingress;
  egress = add_direction s.egress dest.egress;
}

-- The first loop of `load_statistics`: the members after it, the local copies, and the total.
pub record Loaded : Type 0 where
  pub remaining : List Statistics
  pub copies : List Statistics
  pub total : Statistics

unfoldable pub load_loop : List Statistics → Statistics → Loaded
load_loop [] total = record { remaining = []; copies = []; total = total }
load_loop (s ∷ rest) total =
    let (reset, copy) = get_and_reset_into s in
    let l = load_loop rest (sum_into copy total) in
    record { remaining = reset ∷ l.remaining; copies = copy ∷ l.copies; total = l.total }

-- The arithmetic on `double` and its printing by `std::fixed` and `std::setprecision(0)`, which the
-- C++ library gives.
pub record Doubles : Type 1 where
  pub Double : Type 0
  pub of_size : ℕ → Double
  pub times : Double → Double → Double
  pub over : Double → Double → Double
  pub hundred : Double
  pub zero_point : Double
  pub print_fixed : Double → List ℕ

module _ (d : Doubles) where
  open d use {Double, of_size, times, over, hundred, zero_point, print_fixed}

  -- `total.in.bytes ? statistics.in.bytes * 100.0 / total.in.bytes : 0.0`
  unfoldable pub share : ℕ → ℕ → Double
  share total bytes =
      if total == 0 then zero_point else over (times (of_size bytes) hundred) (of_size total)

  -- What one round of the second loop appends: the share, `%` and `/`.
  unfoldable pub share_text : ℕ → Statistics → List ℕ
  share_text total s = print_fixed (share total s.ingress.bytes) ++ (b'%' ∷ b'/' ∷ [])

  unfoldable pub distribution_loop : ℕ → List Statistics → List ℕ → List ℕ
  unfolding share_text share
  distribution_loop total [] text = text
  distribution_loop total (s ∷ rest) text =
      distribution_loop total rest (text ++ share_text total s)

  -- `std::string::pop_back`
  unfoldable pub pop_back : List ℕ → List ℕ
  pop_back [] = []
  pop_back (c ∷ []) = []
  pop_back (c ∷ c' ∷ text) = c ∷ pop_back (c' ∷ text)

  -- Returns the members after the call, the distribution text, and the total.
  unfoldable pub load_statistics : List Statistics → List Statistics × List ℕ × Statistics
  unfolding load_loop distribution_loop pop_back
  load_statistics per_thread =
      let l = load_loop per_thread no_statistics in
      (l.remaining, pop_back (distribution_loop l.total.ingress.bytes l.copies []), l.total)
