-- ===== src/Relay/Logic/Quiet.antt =====
-- `on_client_received` for the libraries of this repository, whose `start_receive` does nothing.
use urn.Prelude.{
  ℕ, ◌≡◌, refl, ap, ◌∙◌, Bool, true, false, List, Option, none, some, ok, length, arith,
  if◌then◌else◌,
}
use urn.Relay.Packet.{Packet}
use urn.Relay.Sessions.Laws.{or_else}
use urn.Relay.Logic.{Tls, State, Library, find_session, count_in, on_client_received}
use urn.Relay.Logic.Counters.{IsStarted, IsReadable, threads, length-modify}
use urn.Relay.Logic.Registration.{requested, grant, on_client_received-Registered}
use urn.Relay.Logic.Routing.{table_of}

module _ {Session : Type 0} where
  pub none_after : (o : Option Session) → o ≡ or_else o none
  none_after none = refl
  none_after (some a) = refl

  pub or_else_assoc : (a b c : Option Session) → or_else (or_else a b) c ≡ or_else a (or_else b c)
  or_else_assoc none b c = refl
  or_else_assoc (some a) b c = refl

pub either : {World : Type 0} (b : Bool) (w : World) → (if b then w else w) ≡ w
either true w = refl
either false w = refl

module _ {Session World : Type 0} where
  -- Identifiers without a session get those that are granted, and nothing else changes.
  pub record Registers (grants : ℕ → Option Session) (st st' : State Session World) : Type 0 where
    pub table : (id : ℕ) → table_of st' id ≡ or_else (table_of st id) (grants id)
    pub same_world : st'.world ≡ st.world
    pub same_threads : threads st' ≡ threads st

  pub same-Registers : (st : State Session World) → Registers (λ id. none) st st
  same-Registers st = record {
    table = λ id. none_after (table_of st id);
    same_world = refl;
    same_threads = refl;
  }

  pub trans-Registers :
      (f g : ℕ → Option Session) (st st₁ st₂ : State Session World)
      → Registers f st st₁
      → Registers g st₁ st₂
      → Registers (λ id. or_else (f id) (g id)) st st₂
  trans-Registers f g st st₁ st₂ a b = record {
    table = λ id.
        b.table id
        ∙ ap (λ o. or_else o (g id)) (a.table id)
        ∙ or_else_assoc (table_of st id) (f id) (g id);
    same_world = b.same_world ∙ a.same_world;
    same_threads = b.same_threads ∙ a.same_threads;
  }

-- The identifier that some bytes of a client ask for.
abbrev pub asked : List ℕ → Option ℕ
asked bytes = requested (record { address = 0; content = bytes; length = length bytes })

module _ {Endpoint Session World : Type 0} (lib : Library Endpoint Session World) where
  pub on_client_received-Registers :
      {tls : Tls} (i : ℕ) (src : Endpoint) (p : Packet) (bytes : List ℕ) (st : State Session World)
      → ((w : World) → lib.client_start_receive w ≡ w)
      → ((w : World) → lib.peer_start_receive w ≡ w)
      → IsStarted i (threads st) tls
      → p.length ≡ length bytes
      → p.content ≡ bytes
      → (st' : State Session World) × (on_client_received lib tls src p st ≡ ok st')
        × Registers (grant lib src (asked bytes)) st st'
  unfolding find_session
  on_client_received-Registers i src p bytes st quiet quiet' s len content =
      let readable : IsReadable p = rw (len, content) (omega arith) in
      let (st', run, r) = on_client_received-Registered lib i src p st s readable in
      let request : requested p ≡ asked bytes = rw (len, content) refl in
      (
        st',
        run,
        record {
          table = λ id. r.table id ∙ rw request refl;
          same_world = r.receives ∙ quiet _ ∙ rw (quiet' st.world) (either _ st.world);
          same_threads =
              ap length r.counters ∙ length-modify i (count_in p) st.relay.per_thread_statistics;
        },
      )
