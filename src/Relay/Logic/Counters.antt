-- ===== src/Relay/Logic/Counters.antt =====
-- The per-thread counters under the handlers of urn/relay.hpp.
use urn.Prelude.{
  ℕ, zero, suc, ◌<◌, ◌≤◌, ◌≡◌, refl, ap, List, [], ◌∷◌, some, length, ok, arith, get_elem?,
}
use mathlib.Core.Option
use urn.Relay.Packet.{Packet, sizeof_session_id, get_session_id}
use urn.Relay.Packet.Laws.{get_session_id-total}
use urn.Relay.Statistics.{Statistics}
use urn.Relay.Logic.{Tls, State, update_entry, update_this_thread}

-- `f` applied to the entry at an index.
unfoldable pub modify : ℕ → (Statistics → Statistics) → List Statistics → List Statistics
modify i f [] = []
modify zero f (x ∷ xs) = f x ∷ xs
modify (suc i) f (x ∷ xs) = x ∷ modify i f xs

pub length-modify :
    (i : ℕ) (f : Statistics → Statistics) (xs : List Statistics)
    → length (modify i f xs) ≡ length xs
unfolding modify
length-modify i f [] = refl
length-modify zero f (x ∷ xs) = refl
length-modify (suc i) f (x ∷ xs) = ap suc (length-modify i f xs)

pub get_elem?-modify_self :
    (i : ℕ) (f : Statistics → Statistics) (xs : List Statistics)
    → get_elem? (modify i f xs) i ≡ Option.map f (get_elem? xs i)
unfolding modify
get_elem?-modify_self i f [] = refl
get_elem?-modify_self zero f (x ∷ xs) = refl
get_elem?-modify_self (suc i) f (x ∷ xs) = get_elem?-modify_self i f xs

update_entry-modify :
    (i : ℕ) (f : Statistics → Statistics) (xs : List Statistics)
    → i < length xs
    → update_entry i f xs ≡ ok (modify i f xs)
unfolding update_entry modify
update_entry-modify i f [] h = elim h [ ]
update_entry-modify zero f (x ∷ xs) h = refl
update_entry-modify (suc i) f (x ∷ xs) h = ground (arith, update_entry-modify i f xs (omega arith))

-- A thread that was started has an entry of its own.
pub record IsStarted (i : ℕ) (n : ℕ) (tls : Tls) : Type 0 where
  pub is_set : tls ≡ some i
  pub in_range : i < n

-- The bytes that `size()` promises can be read.
abbrev pub IsReadable : Packet → Type 0
IsReadable p = p.length ≤ length p.content

-- The identifier that a readable packet of sufficient size names.
pub IsReadable-id :
    (p : Packet)
    → IsReadable p
    → sizeof_session_id ≤ p.length
    → (id : ℕ) × (get_session_id p.content ≡ ok id)
IsReadable-id p r h = get_session_id-total p.content (omega arith)

module _ {Session World : Type 0} where
  abbrev pub threads : State Session World → ℕ
  threads st = length st.relay.per_thread_statistics

  -- The state with one thread's entry changed.
  abbrev pub counted : ℕ → (Statistics → Statistics) → State Session World → State Session World
  counted i f st = record st {
    relay = record (st.relay) { per_thread_statistics = modify i f st.relay.per_thread_statistics };
  }

  -- On a started thread exactly the thread's own entry changes.
  pub update_this_thread-counted :
      {tls : Tls} (i : ℕ) (f : Statistics → Statistics) (st : State Session World)
      → IsStarted i (threads st) tls
      → update_this_thread tls f st ≡ ok (counted i f st)
  unfolding update_this_thread
  update_this_thread-counted i f st s =
      rw (s.is_set, update_entry-modify i f st.relay.per_thread_statistics s.in_range)
