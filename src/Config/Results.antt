-- ===== src/Config/Results.antt =====
-- What the constructors of `config` make of a command line.
use Prim.Native.String.{String}
use urn.Prelude.{
  ℕ, ◌%◌, ◌<◌, ◌≡◌, refl, ap, ◌∙◌, true, false, List, [], ◌∷◌, some, ok, fault, null_deref, ◌>>=◌,
  arith, ◌==◌, leb, Bool-cases, inl, inr, Option-cases,
}
use urn.Config.Argv.{
  Config, uint16_mod, uint16_max, defaults, flag_of, read_args, at_least_one, config, print_config,
  uring_config, mmsg_config,
}
use urn.Config.Numeric.{
  at_least_one_thread, done, throw, std_out_of_range, Stoull, value_of, NumericConfig,
  parse_numeric_argument, read_flags, libuv_config,
}
use urn.Config.Settings.{
  Member, threads, client_port, peer_port, Setting, setting, text_of, number_of, name_of,
  same_member, arguments, last, AllFit,
}

-- The members after some settings.
abbrev pub settled : List Setting → Config → Config
settled ss c = record {
  client_port = last (λ s. some (text_of s)) client_port ss c.client_port;
  peer_port = last (λ s. some (text_of s)) peer_port ss c.peer_port;
  threads = last number_of threads ss c.threads;
}

abbrev pub numeric_settled : List Setting → NumericConfig → NumericConfig
numeric_settled ss c = record {
  client_port = last number_of client_port ss c.client_port;
  peer_port = last number_of peer_port ss c.peer_port;
  threads = last number_of threads ss c.threads;
}

-- A value that fits is kept as it is.
fitting : (atoi n : ℕ) → atoi ≡ n → n < uint16_mod → atoi % uint16_mod ≡ n
fitting a n e small = omega (arith, e, small)

parse_numeric_argument-fits :
    (stoull : String → Stoull) (name text : String) (n : ℕ)
    → stoull text ≡ value_of n
    → n < uint16_mod
    → parse_numeric_argument stoull name text ≡ done n
unfolding parse_numeric_argument
parse_numeric_argument-fits stoull name text n e small =
    let in_range : leb n uint16_max ≡ true = ground arith in rw (e, in_range) refl

module _ (atoi : String → ℕ) (stoull : String → Stoull) where
  read_args-arguments :
      (ss : List Setting) (tail : List String) (c : Config)
      → AllFit atoi stoull ss
      → read_args atoi (arguments ss tail) c ≡ read_args atoi tail (settled ss c)
  unfolding arguments last read_args flag_of
  read_args-arguments [] tail c h = refl
  read_args-arguments (setting threads t n ∷ ss) tail c (a, u, small, h) =
      rw (fitting (atoi t) n a small) (read_args-arguments ss tail (record c { threads = n }) h)
  read_args-arguments (setting client_port t n ∷ ss) tail c (a, u, small, h) =
      read_args-arguments ss tail (record c { client_port = some t }) h
  read_args-arguments (setting peer_port t n ∷ ss) tail c (a, u, small, h) =
      read_args-arguments ss tail (record c { peer_port = some t }) h

  read_flags-arguments :
      (ss : List Setting) (tail : List String) (c : NumericConfig)
      → AllFit atoi stoull ss
      → read_flags stoull (arguments ss tail) c ≡ read_flags stoull tail (numeric_settled ss c)
  unfolding arguments last read_flags flag_of
  read_flags-arguments [] tail c h = refl
  read_flags-arguments (setting threads t n ∷ ss) tail c (a, u, small, h) =
      rw (parse_numeric_argument-fits stoull "threads" t n u small)
        (read_flags-arguments ss tail (record c { threads = n }) h)
  read_flags-arguments (setting client_port t n ∷ ss) tail c (a, u, small, h) =
      rw (parse_numeric_argument-fits stoull "client.port" t n u small)
        (read_flags-arguments ss tail (record c { client_port = n }) h)
  read_flags-arguments (setting peer_port t n ∷ ss) tail c (a, u, small, h) =
      rw (parse_numeric_argument-fits stoull "peer.port" t n u small)
        (read_flags-arguments ss tail (record c { peer_port = n }) h)

  -- The last setting of a port shows its number.
  last-shows :
      (m : Member) (ss : List Setting) (text : String) (n : ℕ)
      → AllFit atoi stoull ss
      → stoull text ≡ value_of n
      → (t : String) × (last (λ s. some (text_of s)) m ss (some text) ≡ some t)
        × (stoull t ≡ value_of (last number_of m ss n))
  unfolding last
  last-shows m [] text n h u = (text, refl, u)
  last-shows m (setting m' t k ∷ ss) text n (a, u', small, h) u =
      elim (Bool-cases (same_member m m')) [
        | inl same ↦ rw same (last-shows m ss t k h u')
        | inr other ↦ rw other (last-shows m ss text n h u)
      ]

-- The two kinds of configuration say the same.
pub record Agrees (stoull : String → Stoull) (c : Config) (d : NumericConfig) : Type 0 where
  pub same_threads : c.threads ≡ d.threads
  pub client : (t : String) × (c.client_port ≡ some t) × (stoull t ≡ value_of d.client_port)
  pub peer : (t : String) × (c.peer_port ≡ some t) × (stoull t ≡ value_of d.peer_port)

at_least_one-Agrees :
    (stoull : String → Stoull) (c : Config) (d : NumericConfig)
    → Agrees stoull c d
    → Agrees stoull (at_least_one c) (at_least_one_thread d)
at_least_one-Agrees stoull c d a = elim (Bool-cases (d.threads == 0)) [
  | inl none_set ↦
      let also : (c.threads == 0) ≡ true = ap (λ n. n == 0) a.same_threads ∙ none_set in
      rw (also, none_set) (record { same_threads = refl; client = a.client; peer = a.peer })
  | inr some_set ↦
      let also : (c.threads == 0) ≡ false = ap (λ n. n == 0) a.same_threads ∙ some_set in
      rw (also, some_set) a
]

-- The output of a configuration with two ports.
print_config-some :
    (c : Config) (client peer : String)
    → c.client_port ≡ some client
    → c.peer_port ≡ some peer
    → print_config c ≡ ok c
unfolding print_config
print_config-some c client peer e f = rw (e, f) refl

module _ (atoi : String → ℕ) (stoull : String → Stoull) where
  -- A command line that is a list of settings whose numbers fit into 16 bits, and which the two library
  -- functions read alike, gives a configuration in uring and mmsg and one in libuv, with the same
  -- number of threads and the same ports, where `stoull` reads the default ports too.
  pub config-Agrees :
      (hardware : ℕ) (ss : List Setting)
      → AllFit atoi stoull ss
      → stoull "3478" ≡ value_of 3478
      → stoull "3479" ≡ value_of 3479
      → (c : Config) × (d : NumericConfig) × (uring_config atoi hardware (arguments ss []) ≡ ok c)
        × (mmsg_config atoi hardware (arguments ss []) ≡ ok c)
        × (libuv_config stoull hardware (arguments ss []) ≡ done d)
        × Agrees stoull c d
  unfolding config libuv_config
  config-Agrees hardware ss h client peer =
      let n = hardware % uint16_mod in
      let c = settled ss (defaults n) in
      let d = numeric_settled ss (record { client_port = 3478; peer_port = 3479; threads = n }) in
      let client_text = last-shows atoi stoull client_port ss "3478" 3478 h client in
      let peer_text = last-shows atoi stoull peer_port ss "3479" 3479 h peer in
      let run : config atoi n (arguments ss []) ≡ ok (at_least_one c) =
        rw (read_args-arguments atoi stoull ss [] (defaults n) h) (
          unfold read_args in
          print_config-some (at_least_one c) client_text.0 peer_text.0 client_text.1 peer_text.1) in
      (
        at_least_one c,
        at_least_one_thread d,
        run,
        run,
        rw
            (read_flags-arguments atoi stoull ss []
              (record { client_port = 3478; peer_port = 3479; threads = n }) h)
            (unfold read_flags in refl),
        at_least_one-Agrees stoull c d
            (record { same_threads = refl; client = client_text; peer = peer_text }),
      )

  no_value :
      (m : Member) (c : Config)
      → (do c ← read_args atoi (name_of m ∷ []) c; print_config (at_least_one c)) ≡ fault null_deref
  unfolding read_args flag_of print_config
  no_value threads c = refl
  no_value client_port c = refl
  no_value peer_port c = elim (Option-cases c.client_port) [
    | inl e ↦ rw e refl
    | inr (text, e) ↦ rw e refl
  ]

  no_number :
      (m : Member) (c : NumericConfig)
      → (read_flags stoull (name_of m ∷ []) c) ≡ throw std_out_of_range
  unfolding read_flags flag_of
  no_number threads c = refl
  no_number client_port c = refl
  no_number peer_port c = refl

  -- A flag at the end of a command line, without its value, behind settings that fit: the programs
  -- that walk `argv` read through a null pointer, for the threads in `atoi` and for a port in the
  -- output of the configuration; libuv throws `std::out_of_range`.
  pub config-without_value :
      (n : ℕ) (ss : List Setting) (m : Member)
      → AllFit atoi stoull ss
      → (config atoi n (arguments ss (name_of m ∷ [])) ≡ fault null_deref)
        × (libuv_config stoull n (arguments ss (name_of m ∷ [])) ≡ throw std_out_of_range)
  unfolding config libuv_config
  config-without_value n ss m h =
      let c : NumericConfig = record {
        client_port = 3478;
        peer_port = 3479;
        threads = n % uint16_mod;
      } in
      (
        rw (read_args-arguments atoi stoull ss (name_of m ∷ []) (defaults n) h)
            (no_value m (settled ss (defaults n))),
        rw
            (
              read_flags-arguments atoi stoull ss (name_of m ∷ []) c h,
              no_number m (numeric_settled ss c),
            )
            refl,
      )
