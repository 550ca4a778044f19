-- ===== src/Relay/Threads/Linear/Reached.antt =====
-- Every state that the threads reach, explained by a history of whole calls; what is found stays.
use urn.Prelude.{
  ℕ, ◌≡◌, refl, inl, inr, true, List, [], some, ◌==◌, arith, length-replicate, Bool-cases,
}
use urn.Relay.Statistics.{no_statistics}
use urn.Relay.Sessions.{find}
use urn.Relay.Logic.{init, restart_peer}
use urn.Relay.Threads.{
  ThreadLibrary, Call, acts, Pc, Shared, table, Move, insert, restart, answer, System, Step, pick,
  Reach, start, later,
}
use urn.Relay.Threads.Exclusion.{Reach-Held}
use urn.Relay.Threads.Whole.{Same-refl}
use urn.Relay.Threads.Linear.{Fits, Linear}
use urn.Relay.Threads.Linear.Advance.{Advance-Linear}
use urn.Relay.Threads.Linear.Commits.{client_restarted-frame, peer_answered-frame}
use urn.Relay.Threads.Linear.Moves.{Move-Frame, Move-Advance}

module _ {Endpoint Session World : Type 0} (lib : ThreadLibrary Endpoint Session World) where
  -- With `std::shared_mutex`: every state that `n` threads reach, in any interleaving of the steps of their
  -- calls, is explained by a history of whole calls, made one after the other from the same start.
  -- The history returns; it holds each thread's calls in the thread's order, up to those that have not
  -- taken effect; its session map is the reached one; and its statistics and worlds are those of the threads
  -- that are between two calls, while a thread within a call is ahead of the history by what the call has
  -- counted, or behind it by what the call has yet to send or to restart.
  pub Reach-Linear :
      {n : ℕ} {w : ℕ → World} {calls : ℕ → List (Call Endpoint)} {s : System lib}
      → Reach lib true n w calls s
      → Linear lib n w calls s
  unfolding acts init find
  Reach-Linear {n} {w} {calls} start = record {
    history = [];
    result = record { relay = init n; world = w };
    runs = refl;
    order = λ i. refl;
    tables = λ id. refl;
    sync = λ i. Same-refl i (record { relay = init n; world = w });
    fits = λ i. tt;
    width = (length-replicate n no_statistics, length-replicate n no_statistics);
  }
  Reach-Linear {n} {w} {calls} (later {s} r (pick i lt mv)) =
      let l = Reach-Linear r in
      let held = Reach-Held lib r in
      Advance-Linear lib i l (
        Move-Advance lib l i lt held mv (Move-Frame lib s i held l.fits mv refl) refl refl
          (l.fits i) (l.sync i))

  Move-find :
      {i : ℕ} {m m' : Shared lib} {q q' : Pc Endpoint Session} {cs cs' : List (Call Endpoint)}
      (id : ℕ) {x : Session}
      → Move lib true i m q cs m' q' cs'
      → Fits (table lib m) q
      → find id (table lib m) ≡ some x
      → find id (table lib m') ≡ some x
  unfolding find restart_peer
  Move-find id (insert {id = new}) (asks, free) h = elim (Bool-cases (new == id)) [
    | inl e ↦ absurd (let k : new ≡ id = ground arith in ground (arith, k, free, h))
    | inr ne ↦ rw ne h
  ]
  Move-find {i} {m} id (restart {added}) f h = rw (client_restarted-frame lib i added m.state).0 h
  Move-find {i} {m} id (answer {p} {found}) f h = rw (peer_answered-frame lib i p found m.state).0 h
  Move-find id mv f h = h

  -- Any number of steps.
  pub data Steps (n : ℕ) (s : System lib) : System lib → Type 0 where
    none_yet : Steps n s s
    one_more : {a b : System lib} → Steps n s a → Step lib true n a b → Steps n s b

  Steps-Reach :
      {n : ℕ} {w : ℕ → World} {calls : ℕ → List (Call Endpoint)} {s s' : System lib}
      → Reach lib true n w calls s
      → Steps n s s'
      → Reach lib true n w calls s'
  Steps-Reach r none_yet = r
  Steps-Reach r (one_more st last) = later (Steps-Reach r st) last

  -- With `std::shared_mutex`: a session that is in the map of a state that `n` threads reach is found
  -- there after any further steps of any threads, under the same identifier and with an equal value: no
  -- registration replaces or removes it. Where in memory the map keeps it is not modelled.
  pub Steps-find :
      {n : ℕ} {w : ℕ → World} {calls : ℕ → List (Call Endpoint)} {s s' : System lib} (id : ℕ)
      {x : Session}
      → Reach lib true n w calls s
      → Steps n s s'
      → find id (table lib s.shared) ≡ some x
      → find id (table lib s'.shared) ≡ some x
  Steps-find id r none_yet h = h
  Steps-find id r (one_more {a} st (pick i lt mv)) h =
      Move-find id mv ((Reach-Linear (Steps-Reach r st)).fits i) (Steps-find id r st h)
