-- ===== src/Relay/Logic/Routing.antt =====
-- The specification of forwarding: which session some bytes name.
use urn.Prelude.{ℕ, ◌≡◌, refl, List, Option, none, ok, leb, length, if◌then◌else◌}
use urn.Relay.Packet.{Packet, sizeof_session_id, get_session_id}
use urn.Relay.Sessions.{find}
use urn.Relay.Logic.{State, find_session}
use urn.Relay.Logic.Forwarding.{addressee}

module _ {Session : Type 0} where
  -- The session that the first eight bytes name.
  unfoldable pub named : (ℕ → Option Session) → List ℕ → Option Session
  named table bytes =
      if leb sizeof_session_id (length bytes)
      then elim (get_session_id bytes) [ ok id ↦ table id | _ ↦ none ]
      else none

  -- The session map as a function.
  abbrev pub table_of : {World : Type 0} → State Session World → ℕ → Option Session
  table_of st id = find id st.relay.sessions

module _ {Session World : Type 0} where
  pub addressee-named :
      (p : Packet) (bytes : List ℕ) (st : State Session World)
      → p.length ≡ length bytes
      → p.content ≡ bytes
      → addressee p st ≡ named (table_of st) bytes
  unfolding find_session named
  addressee-named p bytes st len content = rw (len, content) refl
