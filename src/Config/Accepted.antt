-- ===== src/Config/Accepted.antt =====
-- Which command lines libuv's `config` accepts.
use Prim.Native.String.{String}
use mathlib.Core.Path.{subst}
use text.Mathlib.Text.{◌==◌ as str_eq}
use text.Mathlib.TextEquality.{eq_iff}
use urn.Prelude.{
  ℕ, ◌%◌, ◌<◌, ◌≤◌, ◌≡◌, ◌≢◌, refl, ap, sym, ◌∙◌, ◌⊎◌, List, [], ◌∷◌, ok, fault, null_deref,
  >>=-eq-ok, none, some, arith, ◌==◌, leb, Bool-cases, inl, inr, Option-cases,
}
use urn.Config.Argv.{
  Config, uint16_mod, uint16_max, defaults, Flag, threads_flag, client_port_flag, peer_port_flag,
  unused_flag, flag_of, read_args, at_least_one, config, print_config, set_threads,
}
use urn.Config.Numeric.{
  at_least_one_thread, ◌>>=◌, Try, done, throw, Stoull, value_of, NumericConfig,
  parse_numeric_argument, read_flags, libuv_config, checked, invalid_argument, out_of_range,
}
use urn.Config.Settings.{
  Member, threads, client_port, peer_port, Setting, setting, name_of, arguments, last,
}
use urn.Config.Results.{numeric_settled}

abbrev flag : Member → Flag
flag threads = threads_flag
flag client_port = client_port_flag
flag peer_port = peer_port_flag

-- What the comparisons find.
flag_of-cases :
    (arg : String)
    → (flag_of arg ≡ unused_flag) ⊎ ((m : Member) × (arg ≡ name_of m) × (flag_of arg ≡ flag m))
unfolding flag_of
flag_of-cases arg = elim (Bool-cases (str_eq arg "--threads")) [
  | inl e ↦ inr (threads, (eq_iff arg "--threads").0 e, rw e refl)
  | inr a ↦ elim (Bool-cases (str_eq arg "--client.port")) [
    | inl e ↦ inr (client_port, (eq_iff arg "--client.port").0 e, rw (a, e) refl)
    | inr b ↦ elim (Bool-cases (str_eq arg "--peer.port")) [
      | inl e ↦ inr (peer_port, (eq_iff arg "--peer.port").0 e, rw (a, b, e) refl)
      | inr c ↦ inl (rw (a, b, c) refl)
    ]
  ]
]

>>=-eq-done :
    {A B : Type 0} (first : Try A) (rest : A → Try B) (b : B)
    → (first >>= rest) ≡ done b
    → (a : A) × (first ≡ done a) × (rest a ≡ done b)
>>=-eq-done (done a) rest b h = (a, refl, h)
>>=-eq-done (throw e) rest b h = cc

parse_numeric_argument-done :
    (stoull : String → Stoull) (name text : String) (n : ℕ)
    → parse_numeric_argument stoull name text ≡ done n
    → (stoull text ≡ value_of n) × (n < uint16_mod)
unfolding parse_numeric_argument
parse_numeric_argument-done stoull name text n h = go (stoull text) h
  where
    go : (r : Stoull) → checked name text r ≡ done n → (r ≡ value_of n) × (n < uint16_mod)
    go (value_of ull) h = elim (Bool-cases (leb ull uint16_max)) [
      | inl fits ↦ ground arith
      | inr large ↦ ground arith
    ]
    go invalid_argument h = cc
    go out_of_range h = cc

ok-inj : {A : Type 0} {a b : A} → ok a ≡ ok b → a ≡ b
ok-inj h = cc

done-inj : {A : Type 0} {a b : A} → done a ≡ done b → a ≡ b
done-inj h = cc

abbrev assign : Member → ℕ → NumericConfig → NumericConfig
assign threads n c = record c { threads = n }
assign client_port n c = record c { client_port = n }
assign peer_port n c = record c { peer_port = n }

abbrev label_of : Member → String
label_of threads = "threads"
label_of client_port = "client.port"
label_of peer_port = "peer.port"

-- The library reads the settings' numbers, and they fit.
abbrev pub AllNumbers : (String → Stoull) → List Setting → Type 0
AllNumbers stoull [] = Unit {0}
AllNumbers stoull (setting m text n ∷ rest) =
    (stoull text ≡ value_of n) × (n < uint16_mod) × AllNumbers stoull rest

module _ (stoull : String → Stoull) where
  read_flags-known :
      (m : Member) (arg value : String) (args : List String) (c : NumericConfig)
      → flag_of arg ≡ flag m
      → read_flags stoull (arg ∷ value ∷ args) c ≡ (
          parse_numeric_argument stoull (label_of m) value
          >>= (λ n. read_flags stoull args (assign m n c)))
  unfolding read_flags
  read_flags-known threads arg value args c e = rw (e, read_flags) refl
  read_flags-known client_port arg value args c e = rw (e, read_flags) refl
  read_flags-known peer_port arg value args c e = rw (e, read_flags) refl

  read_flags-last :
      (m : Member) (arg : String) (c d : NumericConfig)
      → flag_of arg ≡ flag m
      → read_flags stoull (arg ∷ []) c ≢ done d
  unfolding read_flags
  read_flags-last threads arg c d e = rw (e, read_flags) (λ h. cc)
  read_flags-last client_port arg c d e = rw (e, read_flags) (λ h. cc)
  read_flags-last peer_port arg c d e = rw (e, read_flags) (λ h. cc)

  read_flags-unused :
      (arg : String) (args : List String) (c d : NumericConfig)
      → flag_of arg ≡ unused_flag
      → read_flags stoull (arg ∷ args) c ≢ done d
  unfolding read_flags
  read_flags-unused arg [] c d e = rw (e, read_flags) (λ h. cc)
  read_flags-unused arg (value ∷ args) c d e = rw (e, read_flags) (λ h. cc)

  numeric_settled-cons :
      (m : Member) (text : String) (n : ℕ) (ss : List Setting) (c : NumericConfig)
      → numeric_settled (setting m text n ∷ ss) c ≡ numeric_settled ss (assign m n c)
  unfolding last
  numeric_settled-cons threads text n ss c = refl
  numeric_settled-cons client_port text n ss c = refl
  numeric_settled-cons peer_port text n ss c = refl

  read_flags-done :
      (args : List String) (c d : NumericConfig)
      → read_flags stoull args c ≡ done d
      → (ss : List Setting) × (args ≡ arguments ss [])
        × AllNumbers stoull ss
        × (d ≡ numeric_settled ss c)
  unfolding arguments last
  read_flags-done [] c d h = ([], refl, tt, unfold read_flags in cc)
  read_flags-done (arg ∷ []) c d h = elim (flag_of-cases arg) [
    | inl e ↦ absurd (read_flags-unused arg [] c d e h)
    | inr (m, _, e) ↦ absurd (read_flags-last m arg c d e h)
  ]
  read_flags-done (arg ∷ value ∷ args) c d h = elim (flag_of-cases arg) [
    | inl e ↦ absurd (read_flags-unused arg (value ∷ args) c d e h)
    | inr (m, name, e) ↦
        let (n, parsed, rest) =
          >>=-eq-done (parse_numeric_argument stoull (label_of m) value)
            (λ n. read_flags stoull args (assign m n c)) d
            (sym (read_flags-known m arg value args c e) ∙ h) in
        let (text, fits) = parse_numeric_argument-done stoull (label_of m) value n parsed in
        let (ss, same, all, end) = read_flags-done args (assign m n c) d rest in
        (
          setting m value n ∷ ss,
          rw (name, same) refl,
          (text, fits, all),
          end ∙ sym (numeric_settled-cons m value n ss c),
        )
  ]

  -- Libuv's `config` returns only on a command line that is a list of settings with numbers that
  -- `stoull` reads and that fit into 16 bits, and its members are then those of the last settings, with
  -- at least one thread.
  pub libuv_config-settings :
      (hardware : ℕ) (args : List String) (d : NumericConfig)
      → libuv_config stoull hardware args ≡ done d
      → (ss : List Setting) × (args ≡ arguments ss [])
        × AllNumbers stoull ss
        × (d
            ≡ at_least_one_thread (
                numeric_settled ss (record {
                  client_port = 3478;
                  peer_port = 3479;
                  threads = hardware % uint16_mod;
                })))
  unfolding libuv_config
  libuv_config-settings hardware args d h =
      let c : NumericConfig = record {
        client_port = 3478;
        peer_port = 3479;
        threads = hardware % uint16_mod;
      } in
      let (d₁, run, e) =
        >>=-eq-done (read_flags stoull args c) (λ c. done (at_least_one_thread c)) d h in
      let (ss, same, all, end) = read_flags-done args c d₁ run in
      (ss, same, all, sym (done-inj e) ∙ ap at_least_one_thread end)

module _ (atoi : String → ℕ) where
  read_args-bounds :
      (args : List String) (c c' : Config)
      → c.threads < uint16_mod
      → read_args atoi args c ≡ ok c'
      → c'.threads < uint16_mod
  unfolding read_args
  read_args-bounds [] c c' small h = subst (λ c. c.threads < uint16_mod) (ok-inj h) small
  read_args-bounds (arg ∷ []) c c' small h = go (flag_of arg) h
    where
      go :
          (f : Flag)
          → (elim f [
            | threads_flag ↦ fault null_deref
            | client_port_flag ↦ ok (record c { client_port = none })
            | peer_port_flag ↦ ok (record c { peer_port = none })
            | unused_flag ↦ ok c
          ])
            ≡ ok c'
          → c'.threads < uint16_mod
      go threads_flag h = cc
      go client_port_flag h = subst (λ c. c.threads < uint16_mod) (ok-inj h) small
      go peer_port_flag h = subst (λ c. c.threads < uint16_mod) (ok-inj h) small
      go unused_flag h = subst (λ c. c.threads < uint16_mod) (ok-inj h) small
  read_args-bounds (arg ∷ value ∷ args) c c' small h =
      go (λ d. read_args-bounds args d c') (λ d. read_args-bounds (value ∷ args) d c') (flag_of arg)
        h
    where
      keeps : List String → Type 0
      keeps args =
          (d : Config)
          → d.threads < uint16_mod
          → read_args atoi args d ≡ ok c'
          → c'.threads < uint16_mod

      go :
          keeps args
          → keeps (value ∷ args)
          → (f : Flag)
          → (elim f [
            | threads_flag ↦ read_args atoi args (set_threads atoi value c)
            | client_port_flag ↦ read_args atoi args (record c { client_port = some value })
            | peer_port_flag ↦ read_args atoi args (record c { peer_port = some value })
            | unused_flag ↦ read_args atoi (value ∷ args) c
          ])
            ≡ ok c'
          → c'.threads < uint16_mod
      go rest again threads_flag h = rest (set_threads atoi value c) (omega arith) h
      go rest again client_port_flag h = rest (record c { client_port = some value }) small h
      go rest again peer_port_flag h = rest (record c { peer_port = some value }) small h
      go rest again unused_flag h = again c small h

  -- The output changes nothing.
  printed : (c c' : Config) → print_config c ≡ ok c' → c ≡ c'
  unfolding print_config
  printed c c' h = elim (Option-cases c.client_port) [
    | inl e ↦ absurd (ground arith)
    | inr (client, e) ↦ elim (Option-cases c.peer_port) [
      | inl f ↦ absurd (ground arith)
      | inr (peer, f) ↦ ground arith
    ]
  ]

  -- The programs that walk `argv` get, from every command line on which the constructor returns, at least
  -- one thread and at most 65535, for an initial number that fits into 16 bits.
  pub config-bounds :
      (n : ℕ) (args : List String) (c : Config)
      → n < uint16_mod
      → config atoi n args ≡ ok c
      → (1 ≤ c.threads) × (c.threads ≤ uint16_max)
  unfolding config
  config-bounds n args c small h =
      let (c₁, run, e) =
        >>=-eq-ok (read_args atoi args (defaults n)) (λ c. print_config (at_least_one c)) h in
      let fits = read_args-bounds args (defaults n) c₁ small run in
      subst (λ c. (1 ≤ c.threads) × (c.threads ≤ uint16_max)) (printed (at_least_one c₁) c e)
        (some_threads c₁ fits)
    where
      some_threads :
          (c : Config)
          → c.threads < uint16_mod
          → (1 ≤ (at_least_one c).threads) × ((at_least_one c).threads ≤ uint16_max)
      some_threads c fits = elim (Bool-cases (c.threads == 0)) [
        | inl none_set ↦ rw none_set (omega arith, omega arith)
        | inr some_set ↦ rw some_set (ground arith, omega (arith, fits))
      ]
