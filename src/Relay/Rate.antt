-- ===== src/Relay/Rate.antt =====
-- urn/relay.hpp: `bits_per_sec`, and the numbers that `print_statistics` puts out.
pub mod Laws
use Prim.Native.String.{String}
use urn.Prelude.{
  ℕ, ◌*◌, ◌/◌, ◌%◌, ◌^◌, ◌≡◌, refl, Bool, List, [], ◌∷◌, ltb, ◌==◌, if◌then◌else◌, Outcome, ok,
  fault, ◌>>=◌, div_by_zero,
}
use urn.Relay.Statistics.{Statistics, size_mod, Doubles, load_statistics}

-- The walk of the pointer `unit` over the array, `later` being the entries behind it.
unfoldable pub scale : ℕ → String → List String → ℕ × String
scale bits unit [] = (bits, unit)
scale bits unit (next ∷ later) =
    if ltb 1000 bits then scale (bits / 1000) next later else (bits, unit)

abbrev pub first_unit : String
first_unit = "bps"

abbrev pub later_units : List String
later_units = "Kbps" ∷ "Mbps" ∷ "Gbps" ∷ []

-- `interval` is the count of seconds; a division by zero is undefined.
unfoldable pub bits_per_sec : ℕ → ℕ → Outcome (ℕ × String)
unfolding scale
bits_per_sec bytes interval =
    if interval == 0
    then fault div_by_zero
    else ok (scale (((8 * bytes) % size_mod) / interval) first_unit later_units)

pub record Report : Type 0 where
  pub in_packets : ℕ
  pub in_bps : ℕ × String
  pub out_packets : ℕ
  pub out_bps : ℕ × String
  pub dist : List ℕ

-- `print_statistics`: the per-thread members after the call and what is printed.
unfoldable pub print_statistics : Doubles → List Statistics → ℕ → Outcome (List Statistics × Report)
unfolding bits_per_sec load_statistics
print_statistics d per_thread interval = do
  let loaded = load_statistics d per_thread
  let stats = loaded.2
  in_bps ← bits_per_sec stats.ingress.bytes interval
  out_bps ← bits_per_sec stats.egress.bytes interval
  ok (
    loaded.0,
    record {
      in_packets = stats.ingress.packets / interval;
      in_bps = in_bps;
      out_packets = stats.egress.packets / interval;
      out_bps = out_bps;
      dist = loaded.1;
    },
  )

five_megabytes : bits_per_sec 5_000_000 5 ≡ ok (8, "Mbps")
unfolding bits_per_sec
five_megabytes = refl
