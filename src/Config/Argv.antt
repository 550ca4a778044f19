-- ===== src/Config/Argv.antt =====
-- uring/relay.cpp, mmsg/relay.cpp and demi/relay.cpp: `config::config`, whose three texts differ in the
-- default of `threads` only. `argv` stands for the entries behind the program's name, and ends with
-- the null pointer that C++ puts there.
use Prim.Native.String.{String}
use text.Mathlib.Text.{◌==◌ as str_eq}
use urn.Prelude.{
  ℕ, ◌%◌, ◌^◌, List, [], ◌∷◌, Option, none, some, Outcome, ok, fault, null_deref, ◌>>=◌, ◌>>◌, ◌==◌,
  if◌then◌else◌,
}

-- A port is a pointer to a text.
pub record Config : Type 0 where
  pub client_port : Option String
  pub peer_port : Option String
  pub threads : ℕ

abbrev pub uint16_mod : ℕ
uint16_mod = 2 ^ 16

-- `std::numeric_limits<uint16_t>::max()`
abbrev pub uint16_max : ℕ
uint16_max = 65535

-- The members before the loop.
abbrev pub defaults : ℕ → Config
defaults threads = record { client_port = some "3478"; peer_port = some "3479"; threads = threads }

pub data Flag : Type 0 where
  threads_flag : Flag
  client_port_flag : Flag
  peer_port_flag : Flag
  unused_flag : Flag

-- The comparisons of the loop's body, in their order.
unfoldable pub flag_of : String → Flag
flag_of arg =
    if str_eq arg "--threads"
    then threads_flag
    else if str_eq arg "--client.port"
    then client_port_flag
    else if str_eq arg "--peer.port"
    then peer_port_flag
    else unused_flag

-- `if (!threads) { threads = 1; }`
abbrev pub at_least_one : Config → Config
at_least_one c = record c { threads = if c.threads == 0 then 1 else c.threads }

-- The output of the result, without the text: it reads both ports, and a null pointer is not to be
-- read.
abbrev pub read_port : Option String → Outcome (Unit {0})
read_port none = fault null_deref
read_port (some text) = ok tt

unfoldable pub print_config : Config → Outcome Config
print_config c = do read_port c.client_port; read_port c.peer_port; ok c

-- `atoi` gives an `int`, here modulo 2³².
module _ (atoi : String → ℕ) where
  abbrev pub set_threads : String → Config → Config
  set_threads value c = record c { threads = atoi value % uint16_mod }

  -- The loop. A flag at the end takes the null pointer, of which `atoi` reads.
  unfoldable pub read_args : List String → Config → Outcome Config
  read_args [] c = ok c
  read_args (arg ∷ []) c = elim (flag_of arg) [
    | threads_flag ↦ fault null_deref
    | client_port_flag ↦ ok (record c { client_port = none })
    | peer_port_flag ↦ ok (record c { peer_port = none })
    | unused_flag ↦ ok c
  ]
  read_args (arg ∷ value ∷ args) c = elim (flag_of arg) [
    | threads_flag ↦ read_args args (set_threads value c)
    | client_port_flag ↦ read_args args (record c { client_port = some value })
    | peer_port_flag ↦ read_args args (record c { peer_port = some value })
    | unused_flag ↦ read_args (value ∷ args) c
  ]

  -- The constructor, for the initial number of threads.
  unfoldable pub config : ℕ → List String → Outcome Config
  unfolding read_args print_config
  config threads args = do c ← read_args args (defaults threads); print_config (at_least_one c)

  -- `hardware` is `std::thread::hardware_concurrency()`.
  abbrev pub uring_config : ℕ → List String → Outcome Config
  uring_config hardware args = config (hardware % uint16_mod) args

  abbrev pub mmsg_config : ℕ → List String → Outcome Config
  mmsg_config hardware args = config (hardware % uint16_mod) args

  abbrev pub demi_config : List String → Outcome Config
  demi_config args = config 1 args
