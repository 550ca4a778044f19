-- ===== src/Config/Examples.antt =====
-- Tests of the model of the command lines, and its theorems at concrete inputs.
use Prim.Native.String.{String}
use text.Mathlib.Text.{◌==◌ as str_eq}
use urn.Prelude.{
  ℕ, ◌≤◌, ◌≡◌, refl, List, [], ◌∷◌, some, ok, fault, null_deref, if◌then◌else◌, arith,
}
use urn.Config.Argv.{
  Config, uint16_max, defaults, flag_of, read_args, print_config, config, uring_config, mmsg_config,
  demi_config,
}
use urn.Config.Numeric.{
  NumericConfig, at_least_one_thread, Stoull, value_of, invalid_argument, parse_numeric_argument,
  read_flags, libuv_config, done, throw, number_out_of_range, number_invalid, invalid_flag,
  std_out_of_range,
}
use urn.Config.Settings.{threads, client_port, Setting, setting, arguments}
use urn.Config.Results.{Agrees, numeric_settled, config-Agrees, config-without_value}
use urn.Config.Accepted.{AllNumbers, libuv_config-settings, config-bounds}

-- The library's functions at the texts below.
abbrev atoi : String → ℕ
atoi text =
    if str_eq text "4"
    then 4
    else if str_eq text "5000"
    then 5000
    else if str_eq text "65536"
    then 65536
    else 0

abbrev stoull : String → Stoull
stoull text =
    if str_eq text "4"
    then value_of 4
    else if str_eq text "5000"
    then value_of 5000
    else if str_eq text "65536"
    then value_of 65536
    else if str_eq text "3478"
    then value_of 3478
    else if str_eq text "3479"
    then value_of 3479
    else invalid_argument

abbrev settings : List Setting
settings = setting threads "4" 4 ∷ setting client_port "5000" 5000 ∷ []

abbrev line : List String
line = "--threads" ∷ "4" ∷ "--client.port" ∷ "5000" ∷ []

abbrev numeric : NumericConfig
numeric = record { client_port = 5000; peer_port = 3479; threads = 4 }

line-arguments : line ≡ arguments settings []
unfolding arguments
line-arguments = refl

wraps : config atoi 1 ("--threads" ∷ "65536" ∷ []) ≡ ok (record (defaults 1) { threads = 1 })
unfolding config read_args print_config flag_of
wraps = refl

skips : demi_config atoi ("--verbose" ∷ "--threads" ∷ "4" ∷ []) ≡ ok (defaults 4)
unfolding config read_args print_config flag_of
skips = refl

too_large :
    libuv_config stoull 8 ("--threads" ∷ "65536" ∷ [])
    ≡ throw (number_out_of_range "threads" "65536")
unfolding libuv_config read_flags parse_numeric_argument flag_of
too_large = refl

no_number : libuv_config stoull 8 ("--threads" ∷ "x" ∷ []) ≡ throw (number_invalid "threads" "x")
unfolding libuv_config read_flags parse_numeric_argument flag_of
no_number = refl

unknown : libuv_config stoull 8 ("--verbose" ∷ []) ≡ throw (invalid_flag "--verbose")
unfolding libuv_config read_flags flag_of
unknown = refl

config-Agrees_example :
    (c : Config) × (d : NumericConfig) × (uring_config atoi 8 (arguments settings []) ≡ ok c)
    × (mmsg_config atoi 8 (arguments settings []) ≡ ok c)
    × (libuv_config stoull 8 (arguments settings []) ≡ done d)
    × Agrees stoull c d
config-Agrees_example =
    config-Agrees atoi stoull 8 settings (refl, refl, omega arith, (refl, refl, omega arith, tt))
      refl refl

config-without_value_example :
    (config atoi 8 (arguments settings ("--client.port" ∷ [])) ≡ fault null_deref)
    × (libuv_config stoull 8 (arguments settings ("--client.port" ∷ [])) ≡ throw std_out_of_range)
config-without_value_example =
    config-without_value atoi stoull 8 settings client_port
      (refl, refl, omega arith, (refl, refl, omega arith, tt))

line-accepted : libuv_config stoull 8 line ≡ done numeric
unfolding libuv_config read_flags parse_numeric_argument flag_of
line-accepted = refl

libuv_config-settings_example :
    (ss : List Setting) × (line ≡ arguments ss [])
    × AllNumbers stoull ss
    × (numeric
        ≡ at_least_one_thread
            (numeric_settled ss (record { client_port = 3478; peer_port = 3479; threads = 8 })))
libuv_config-settings_example = libuv_config-settings stoull 8 line numeric line-accepted

abbrev from_line : Config
from_line = record { client_port = some "5000"; peer_port = some "3479"; threads = 4 }

from_line-config : config atoi 8 line ≡ ok from_line
unfolding config read_args print_config flag_of
from_line-config = refl

config-bounds_example : (1 ≤ 4) × (4 ≤ uint16_max)
config-bounds_example = config-bounds atoi 8 line from_line (omega arith) from_line-config
