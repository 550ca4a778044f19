-- ===== src/Relay/Statistics/Laws.antt =====
-- `load_statistics` and the counters: nothing is lost between two reports.
use urn.Prelude.{ℕ, ◌+◌, ◌%◌, ◌<◌, ◌≡◌, refl, ap, List, [], ◌∷◌, arith, length, replicate}
use urn.Relay.Statistics.{
  size_mod, Statistics, no_statistics, get_and_reset_into, sum_into, load_loop, load_statistics,
  Doubles,
}

-- A sum over the threads that does not wrap.
unfoldable pub sum_of : (Statistics → ℕ) → List Statistics → ℕ
sum_of f [] = 0
sum_of f (s ∷ rest) = f s + sum_of f rest

abbrev pub in_packets : Statistics → ℕ
in_packets s = s.ingress.packets

abbrev pub in_bytes : Statistics → ℕ
in_bytes s = s.ingress.bytes

abbrev pub out_packets : Statistics → ℕ
out_packets s = s.egress.packets

abbrev pub out_bytes : Statistics → ℕ
out_bytes s = s.egress.bytes

-- `t` adds the counters of `xs` to those of `start`, each modulo 2 ^ 64.
pub record Totals (start : Statistics) (xs : List Statistics) (t : Statistics) : Type 0 where
  pub in_packets_sum : in_packets t ≡ (in_packets start + sum_of in_packets xs) % size_mod
  pub in_bytes_sum : in_bytes t ≡ (in_bytes start + sum_of in_bytes xs) % size_mod
  pub out_packets_sum : out_packets t ≡ (out_packets start + sum_of out_packets xs) % size_mod
  pub out_bytes_sum : out_bytes t ≡ (out_bytes start + sum_of out_bytes xs) % size_mod

pub record InRange (s : Statistics) : Type 0 where
  pub in_packets_small : in_packets s < size_mod
  pub in_bytes_small : in_bytes s < size_mod
  pub out_packets_small : out_packets s < size_mod
  pub out_bytes_small : out_bytes s < size_mod

sum_into-InRange : (s dest : Statistics) → InRange (sum_into s dest)
unfolding sum_into
sum_into-InRange s dest = omega arith

Totals-cons :
    (start s : Statistics) (xs : List Statistics) (t : Statistics)
    → Totals (sum_into (get_and_reset_into s).1 start) xs t
    → Totals start (s ∷ xs) t
unfolding get_and_reset_into sum_into sum_of
Totals-cons start s xs t h = omega arith

load_loop-Totals :
    (xs : List Statistics) (start : Statistics)
    → InRange start
    → Totals start xs (load_loop xs start).total
unfolding load_loop sum_of
load_loop-Totals [] start r = omega arith
load_loop-Totals (s ∷ xs) start r =
    Totals-cons start s xs _ (load_loop-Totals xs _ (sum_into-InRange _ start))

load_loop-remaining :
    (xs : List Statistics) (start : Statistics)
    → (load_loop xs start).remaining ≡ replicate (length xs) no_statistics
unfolding load_loop get_and_reset_into
load_loop-remaining [] start = refl
load_loop-remaining (s ∷ xs) start = ap (◌∷◌ no_statistics) (load_loop-remaining xs _)

pub load_loop-copies :
    (xs : List Statistics) (start : Statistics) → (load_loop xs start).copies ≡ xs
unfolding load_loop get_and_reset_into
load_loop-copies [] start = refl
load_loop-copies (s ∷ xs) start = ap (◌∷◌ s) (load_loop-copies xs _)

-- A report takes each counter of every thread over into the total, modulo 2 ^ 64, and leaves one
-- zeroed entry for each thread: no thread is dropped, none is counted twice.
pub load_statistics-Totals :
    (d : Doubles) (xs : List Statistics)
    → Totals no_statistics xs (load_statistics d xs).2
      × ((load_statistics d xs).0 ≡ replicate (length xs) no_statistics)
unfolding load_statistics
load_statistics-Totals d xs =
    (load_loop-Totals xs no_statistics (omega arith), load_loop-remaining xs no_statistics)
