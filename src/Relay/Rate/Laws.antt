-- ===== src/Relay/Rate/Laws.antt =====
-- `bits_per_sec` finds the unit in which the rate is at most 1000.
use Prim.Native.String.{String}
use urn.Prelude.{
  replicate, ℕ, zero, suc, ◌*◌, ◌-◌, ◌/◌, ◌%◌, ◌^◌, ◌≤◌, ◌<◌, ◌≡◌, ◌≢◌, refl, ap, ◌∙◌, ◌⊎◌, inl,
  inr, false, List, [], ◌∷◌, ltb, ◌==◌, ok, arith, get_elem?, some, length, Bool-cases, ltb→lt,
}
use native.Mathlib.Nat.{pow-suc, div-div-eq-div-mul}
use urn.Relay.Statistics.{size_mod, Doubles, Statistics, no_statistics, load_statistics}
use urn.Relay.Statistics.Laws.{load_statistics-Totals}
use urn.Relay.Rate.{scale, Report, print_statistics, bits_per_sec, first_unit, later_units}

-- `rounds` divisions by 1000 lead to the value `v`, and no fewer would do: one division less leaves a
-- value above 1000.
pub record Scaled (bits : ℕ) (units : List String) (v : ℕ) (unit : String) : Type 0 where
  pub rounds : ℕ
  pub value : v ≡ bits / 1000 ^ rounds
  pub named : get_elem? units rounds ≡ some unit
  pub small : (v ≤ 1000) ⊎ (suc rounds ≡ length units)
  pub needed : (rounds ≡ 0) ⊎ (1000 < bits / 1000 ^ (rounds - 1))

div_by_one : (n : ℕ) → n ≡ n / 1000 ^ 0
div_by_one n = omega arith

div-div : (n k : ℕ) → n / 1000 / 1000 ^ k ≡ n / 1000 ^ suc k
div-div n k = div-div-eq-div-mul n 1000 (1000 ^ k) ∙ ap (λ m. n / m) (omega (arith, pow-suc 1000 k))

needed_suc :
    (bits k : ℕ)
    → 1000 < bits
    → (k ≡ 0) ⊎ (1000 < bits / 1000 / 1000 ^ (k - 1))
    → 1000 < bits / 1000 ^ (suc k - 1)
needed_suc bits zero more h = omega (arith, div_by_one bits)
needed_suc bits (suc k) more (inl e) = absurd (omega arith)
needed_suc bits (suc k) more (inr h) =
    let e : suc (suc k) - 1 ≡ suc k = omega arith in
    let e' : suc k - 1 ≡ k = omega arith in rw e (omega (arith, div-div bits k, rw e' at h))

scale-Scaled :
    (bits : ℕ) (unit : String) (later : List String)
    → Scaled bits (unit ∷ later) (scale bits unit later).0 (scale bits unit later).1
unfolding scale
scale-Scaled bits unit [] = record {
  rounds = 0;
  value = div_by_one bits;
  named = refl;
  small = inr refl;
  needed = inl refl;
}
scale-Scaled bits unit (next ∷ later) = elim (Bool-cases (ltb 1000 bits)) [
  | inl more ↦
      let r = scale-Scaled (bits / 1000) next later in
      rw more (record {
        rounds = suc r.rounds;
        value = r.value ∙ div-div bits r.rounds;
        named = r.named;
        small = omega (arith, r.small);
        needed = inr (needed_suc bits r.rounds (ltb→lt 1000 bits more) r.needed);
      })
  | inr less ↦ rw less (record {
    rounds = 0;
    value = div_by_one bits;
    named = refl;
    small = inl (ground arith);
    needed = inl refl;
  })
]

-- For an interval that is not zero the result is the number of bits modulo 2 ^ 64, divided by the
-- interval and rounded down, in the first of the four units in which it is at most 1000, or in the
-- last unit; below 2 ^ 61 bytes this is the rate in bits per second.
pub bits_per_sec-Scaled :
    (bytes interval : ℕ)
    → interval ≢ 0
    → (v : ℕ) × (unit : String) × (bits_per_sec bytes interval ≡ ok (v, unit))
      × Scaled (((8 * bytes) % size_mod) / interval) (first_unit ∷ later_units) v unit
unfolding bits_per_sec
bits_per_sec-Scaled bytes interval ne =
    let some_time : (interval == 0) ≡ false = ground arith in
    (
      _,
      _,
      rw some_time refl,
      scale-Scaled (((8 * bytes) % size_mod) / interval) first_unit later_units,
    )

-- Every report with a positive interval comes out, and leaves one zeroed entry for each thread.
pub print_statistics-reset :
    (d : Doubles) (xs : List Statistics) (interval : ℕ)
    → interval ≢ 0
    → (r : Report) × (print_statistics d xs interval ≡ ok (replicate (length xs) no_statistics, r))
unfolding print_statistics
print_statistics-reset d xs interval ne =
    let t = (load_statistics d xs).2 in
    let (v, u, e, _) = bits_per_sec-Scaled t.ingress.bytes interval ne in
    let (v', u', e', _) = bits_per_sec-Scaled t.egress.bytes interval ne in
    (
      record {
        in_packets = t.ingress.packets / interval;
        in_bps = (v, u);
        out_packets = t.egress.packets / interval;
        out_bps = (v', u');
        dist = (load_statistics d xs).1;
      },
      rw (e, e', (load_statistics-Totals d xs).1) refl,
    )
