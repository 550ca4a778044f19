-- ===== src/Config/Numeric.antt =====
-- libuv/relay.cpp: `parse_numeric_argument` and `config::config`. What is thrown leaves the
-- constructor, and ends libuv/main.cpp with the text of the exception.
use Prim.Native.String.{String}
use urn.Prelude.{ℕ, ◌%◌, ◌==◌, leb, List, [], ◌∷◌, if◌then◌else◌}
use urn.Config.Argv.{
  uint16_mod, uint16_max, threads_flag, client_port_flag, peer_port_flag, unused_flag, flag_of,
}

-- The runtime errors carry what their texts are made of; `std_out_of_range` is
-- thrown by `std::stoull` and by `std::deque::at`.
pub data Exception : Type 0 where
  number_out_of_range : String → String → Exception
  number_invalid : String → String → Exception
  invalid_flag : String → Exception
  std_out_of_range : Exception

pub data Try {ℓ} (A : Type ℓ) : Type ℓ where
  done : A → Try A
  throw : Exception → Try A

infixl 5 ◌>>=◌
abbrev pub ◌>>=◌ {ℓ ℓ'} : {A : Type ℓ} {B : Type ℓ'} → Try A → (A → Try B) → Try B
done a >>= rest = rest a
throw e >>= rest = throw e

-- `std::stoull`: a number or one of its two exceptions.
pub data Stoull : Type 0 where
  value_of : ℕ → Stoull
  invalid_argument : Stoull
  out_of_range : Stoull

-- The members of libuv's `config`.
pub record NumericConfig : Type 0 where
  pub client_port : ℕ
  pub peer_port : ℕ
  pub threads : ℕ

-- `T` is `uint16_t`. Only `std::invalid_argument` is caught.
abbrev pub checked : String → String → Stoull → Try ℕ
checked name value (value_of ull) =
    if leb ull uint16_max then done ull else throw (number_out_of_range name value)
checked name value invalid_argument = throw (number_invalid name value)
checked name value out_of_range = throw std_out_of_range

-- `if (!threads) { threads = 1; }`
abbrev pub at_least_one_thread : NumericConfig → NumericConfig
at_least_one_thread c = if c.threads == 0 then record c { threads = 1 } else c

module _ (stoull : String → Stoull) where
  unfoldable pub parse_numeric_argument : String → String → Try ℕ
  parse_numeric_argument name value = checked name value (stoull value)

  -- The loop, with `args.at(++i)`.
  unfoldable pub read_flags : List String → NumericConfig → Try NumericConfig
  unfolding parse_numeric_argument
  read_flags [] c = done c
  read_flags (arg ∷ []) c = elim (flag_of arg) [
    | unused_flag ↦ throw (invalid_flag arg)
    | _ ↦ throw std_out_of_range
  ]
  read_flags (arg ∷ value ∷ args) c = elim (flag_of arg) [
    | threads_flag ↦ do
      n ← parse_numeric_argument "threads" value
      read_flags args (record c { threads = n })
    | client_port_flag ↦ do
      n ← parse_numeric_argument "client.port" value
      read_flags args (record c { client_port = n })
    | peer_port_flag ↦ do
      n ← parse_numeric_argument "peer.port" value
      read_flags args (record c { peer_port = n })
    | unused_flag ↦ throw (invalid_flag arg)
  ]

  -- The constructor; `hardware` is `std::thread::hardware_concurrency()`.
  unfoldable pub libuv_config : ℕ → List String → Try NumericConfig
  unfolding read_flags
  libuv_config hardware args = do
    c ←
        read_flags args
          (record { client_port = 3478; peer_port = 3479; threads = hardware % uint16_mod })
    done (at_least_one_thread c)
