-- ===== src/Relay/Threads/Whole.antt =====
-- urn/relay.hpp with several threads: a call as a whole, by what it does to the session map, to the
-- thread's own statistics and world, and to those of the others.
use urn.Prelude.{
  ℕ, zero, suc, ◌<◌, ◌≡◌, ◌≢◌, refl, ap, sym, ◌∙◌, Bool, true, false, List, [], ◌∷◌, Option, none,
  some, ok, if◌then◌else◌, ◌>>=◌, arith, length, get_elem?,
}
use mathlib.Core.Option
use urn.Relay.Packet.{Packet}
use urn.Relay.Statistics.{Statistics}
use urn.Relay.Sessions.{find}
use urn.Relay.Sessions.Laws.{or_else}
use urn.Relay.Logic.{
  State, find_session, count_in, count_out, restart_peer, restart_client, on_session_sent,
}
use urn.Relay.Logic.Counters.{
  get_elem?-modify_self, IsReadable, counted, modify, length-modify, threads,
  update_this_thread-counted,
}
use urn.Relay.Logic.Registration.{requested, grant, is_new, on_client_received-Registered}
use urn.Relay.Logic.Forwarding.{addressee, deliver, on_peer_received-deliver}
use urn.Relay.Threads.{
  ThreadLibrary, client_received, peer_received, session_sent, on_thread, act, client_restarted,
  peer_answered,
}

get_elem?-modify_ne :
    (i j : ℕ) (f : Statistics → Statistics) (xs : List Statistics)
    → i ≢ j
    → get_elem? (modify i f xs) j ≡ get_elem? xs j
unfolding modify
get_elem?-modify_ne i j f [] h = refl
get_elem?-modify_ne zero zero f (x ∷ xs) h = absurd (h refl)
get_elem?-modify_ne zero (suc j) f (x ∷ xs) h = refl
get_elem?-modify_ne (suc i) zero f (x ∷ xs) h = refl
get_elem?-modify_ne (suc i) (suc j) f (x ∷ xs) h = get_elem?-modify_ne i j f xs (λ e. h (ap suc e))

module _ {Session World : Type 0} where
  -- What thread `i` alone touches: its statistics and its part of the world.
  pub record Same (i : ℕ) (a b : State Session (ℕ → World)) : Type 0 where
    pub statistics :
        get_elem? a.relay.per_thread_statistics i ≡ get_elem? b.relay.per_thread_statistics i
    pub worlds : a.world i ≡ b.world i

  pub Same-refl : (i : ℕ) (a : State Session (ℕ → World)) → Same i a a
  Same-refl i a = record { statistics = refl; worlds = refl }

  pub Same-sym : {i : ℕ} {a b : State Session (ℕ → World)} → Same i a b → Same i b a
  Same-sym h = record { statistics = sym h.statistics; worlds = sym h.worlds }

  pub Same-trans :
      {i : ℕ} {a b c : State Session (ℕ → World)} → Same i a b → Same i b c → Same i a c
  Same-trans h k = record { statistics = h.statistics ∙ k.statistics; worlds = h.worlds ∙ k.worlds }

  pub counted-Same :
      {a b : State Session (ℕ → World)} (i : ℕ) (f : Statistics → Statistics)
      → Same i a b
      → Same i (counted i f a) (counted i f b)
  counted-Same {a} {b} i f h = record {
    statistics =
        get_elem?-modify_self i f a.relay.per_thread_statistics
        ∙ ap (Option.map f) h.statistics
        ∙ sym (get_elem?-modify_self i f b.relay.per_thread_statistics);
    worlds = h.worlds;
  }

  pub counted-other :
      (i j : ℕ) (f : Statistics → Statistics) (a : State Session (ℕ → World))
      → i ≢ j
      → Same j (counted i f a) a
  counted-other i j f a ne = record {
    statistics = get_elem?-modify_ne i j f a.relay.per_thread_statistics ne;
    worlds = refl;
  }

module _ {Endpoint Session World : Type 0} (lib : ThreadLibrary Endpoint Session World) where
  pub client_restarted-Same :
      {a b : State Session (ℕ → World)} (i : ℕ) (added : Bool)
      → Same i a b
      → Same i (client_restarted lib i added a) (client_restarted lib i added b)
  unfolding restart_client restart_peer
  client_restarted-Same i true h = record {
    statistics = h.statistics;
    worlds = ground (arith, h.worlds);
  }
  client_restarted-Same i false h = record {
    statistics = h.statistics;
    worlds = ground (arith, h.worlds);
  }

  pub client_restarted-other :
      (i j : ℕ) (added : Bool) (a : State Session (ℕ → World))
      → i ≢ j
      → Same j (client_restarted lib i added a) a
  unfolding restart_client restart_peer
  client_restarted-other i j true a ne = record { statistics = refl; worlds = ground arith }
  client_restarted-other i j false a ne = record { statistics = refl; worlds = ground arith }

  pub peer_answered-Same :
      {a b : State Session (ℕ → World)} (i : ℕ) (p : Packet) (found : Option Session)
      → Same i a b
      → Same i (peer_answered lib i p found a) (peer_answered lib i p found b)
  unfolding restart_peer
  peer_answered-Same i p none h = record {
    statistics = h.statistics;
    worlds = ground (arith, h.worlds);
  }
  peer_answered-Same i p (some x) h = record {
    statistics = (counted-Same i (lib.send_counts x p) h).statistics;
    worlds = ground (arith, h.worlds);
  }

  pub peer_answered-other :
      (i j : ℕ) (p : Packet) (found : Option Session) (a : State Session (ℕ → World))
      → i ≢ j
      → Same j (peer_answered lib i p found a) a
  unfolding restart_peer
  peer_answered-other i j p none a ne = record { statistics = refl; worlds = ground arith }
  peer_answered-other i j p (some x) a ne = record {
    statistics = (counted-other i j (lib.send_counts x p) a ne).statistics;
    worlds = ground arith;
  }

  client_restarted-fields :
      (i : ℕ) (added : Bool) (a : State Session (ℕ → World))
      → let b = client_restarted lib i added a in
        (b.relay.per_thread_statistics ≡ a.relay.per_thread_statistics)
        × (b.world
            ≡ (on_thread lib i).client_start_receive
                (if added then (on_thread lib i).peer_start_receive a.world else a.world))
  unfolding restart_client restart_peer
  client_restarted-fields i true a = (refl, refl)
  client_restarted-fields i false a = (refl, refl)

  deliver-answered :
      (i : ℕ) (p : Packet) (found : Option Session) (a : State Session (ℕ → World))
      → (do
        (_, b) ← deliver (on_thread lib i) (λ x. (on_thread lib i).start_send (some i) x p) found a
        ok b)
        ≡ ok (peer_answered lib i p found a)
  deliver-answered i p none a = refl
  deliver-answered i p (some x) a = refl

  pub act-client :
      (i : ℕ) (src : Endpoint) (p : Packet) (st : State Session (ℕ → World))
      → i < threads st
      → IsReadable p
      → (st' : State Session (ℕ → World)) × (act lib i (client_received src p) st ≡ ok st')
        × ((j : ℕ)
            → Same j st' (
                client_restarted lib i
                  (is_new (on_thread lib i) (requested p) st)
                  (counted i (count_in p) st)))
        × ((id : ℕ)
            → find id st'.relay.sessions
              ≡ or_else (find id st.relay.sessions) (grant (on_thread lib i) src (requested p) id))
        × (threads st' ≡ threads st)
  unfolding act find_session
  act-client i src p st lt r =
      let (st', run, reg) =
        on_client_received-Registered (on_thread lib i) i src p st
          (record { is_set = refl; in_range = lt }) r in
      let fields =
        client_restarted-fields i (is_new (on_thread lib i) (requested p) st)
          (counted i (count_in p) st) in
      (
        st',
        run,
        λ j. record {
          statistics = ap (λ xs. get_elem? xs j) (reg.counters ∙ sym fields.0);
          worlds = ap (λ w. w j) (reg.receives ∙ sym fields.1);
        },
        reg.table,
        ap length reg.counters ∙ length-modify i (count_in p) st.relay.per_thread_statistics,
      )

  pub act-peer :
      (i : ℕ) (src : Endpoint) (p : Packet) (st : State Session (ℕ → World))
      → i < threads st
      → IsReadable p
      → act lib i (peer_received src p) st
        ≡ ok (peer_answered lib i p (addressee p st) (counted i (count_in p) st))
  unfolding act
  act-peer i src p st lt r =
      rw
        (on_peer_received-deliver (on_thread lib i) i src p st
          (record { is_set = refl; in_range = lt }) r)
        (deliver-answered i p (addressee p st) (counted i (count_in p) st))

  pub act-sent :
      (i : ℕ) (p : Packet) (st : State Session (ℕ → World))
      → i < threads st
      → act lib i (session_sent p) st
        ≡ ok (restart_peer (on_thread lib i) (counted i (count_out p) st))
  unfolding act on_session_sent
  act-sent i p st lt =
      rw (update_this_thread-counted i (count_out p) st (record { is_set = refl; in_range = lt }))
        refl
