-- ===== src/Config/Settings.antt =====
-- What a command line means, for all four programs: a list of settings, of which the last one of a
-- member counts.
use Prim.Native.String.{String}
use urn.Prelude.{ℕ, ◌<◌, ◌≡◌, Bool, true, false, List, [], ◌∷◌, if◌then◌else◌}
use urn.Config.Numeric.{Stoull, value_of}
use urn.Config.Argv.{uint16_mod}

pub data Member : Type 0 where
  threads client_port peer_port : Member

-- A member, the text that stands behind its flag, and the number that the text shows.
pub data Setting : Type 0 where
  setting : Member → String → ℕ → Setting

abbrev pub text_of : Setting → String
text_of (setting m text n) = text

abbrev pub number_of : Setting → ℕ
number_of (setting m text n) = n

abbrev pub name_of : Member → String
name_of threads = "--threads"
name_of client_port = "--client.port"
name_of peer_port = "--peer.port"

abbrev pub same_member : Member → Member → Bool
same_member threads threads = true
same_member client_port client_port = true
same_member peer_port peer_port = true
same_member _ _ = false

unfoldable pub arguments : List Setting → List String → List String
arguments [] tail = tail
arguments (setting m text n ∷ rest) tail = name_of m ∷ text ∷ arguments rest tail

-- The last setting of a member, or what the member was before.
unfoldable pub last {ℓ} : {A : Type ℓ} → (Setting → A) → Member → List Setting → A → A
last f m [] before = before
last f m (setting m' text n ∷ rest) before =
    last f m rest (if same_member m m' then f (setting m' text n) else before)

-- The library reads the settings' numbers in their texts, and they fit.
abbrev pub AllFit : (String → ℕ) → (String → Stoull) → List Setting → Type 0
AllFit atoi stoull [] = Unit {0}
AllFit atoi stoull (setting m text n ∷ rest) =
    (atoi text ≡ n) × (stoull text ≡ value_of n) × (n < uint16_mod) × AllFit atoi stoull rest
