-- ===== src/Relay/Threads/Linear/Moves.antt =====
-- Each step of a thread advances the history that explains the state.
use urn.Prelude.{
  ℕ, ◌<◌, ◌≡◌, ◌≢◌, refl, ap, sym, ◌∙◌, true, false, List, [], ◌∷◌, Option, none, some, ◌==◌,
  if◌then◌else◌, arith, Bool-cases, inl, inr,
}
use urn.Relay.Sessions.{find}
use urn.Relay.Sessions.Laws.{or_else}
use urn.Relay.Logic.{State, Library, find_session, count_in, count_out, restart_peer}
use urn.Relay.Logic.Counters.{counted, threads, length-modify}
use urn.Relay.Logic.Registration.{is_new}
use urn.Relay.Threads.{
  ThreadLibrary, Call, session_sent, acts, on_thread, Pc, emplacing, inserting, Shared, table, Move,
  register, no_request, lock_map, key_taken, key_free, insert, unlock_map, restart, look_up,
  too_short, share_map, look, unshare_map, answer, count_sent, System, with_sessions,
}
use urn.Relay.Threads.Exclusion.{is_exclusive, Held}
use urn.Relay.Threads.Whole.{
  Same, Same-trans, counted-Same, counted-other, client_restarted-Same, client_restarted-other,
  peer_answered-Same, peer_answered-other, act-sent,
}
use urn.Relay.Threads.Linear.{Fits, Sync, Linear}
use urn.Relay.Threads.Linear.Advance.{Advance}
use urn.Relay.Threads.Linear.Commits.{
  Frame, quiet, client-effect, peer-effect, client_restarted-frame, peer_answered-frame,
  Asks-requested, no_request-requested, Addresses-addressee, too_short-addressee,
}

module _ {Endpoint Session : Type 0} where
  -- Outside of the exclusive section a thread's locals say nothing of the map.
  Fits-shared :
      (q : Pc Endpoint Session) (xs ys : List (ℕ × Session))
      → is_exclusive q ≡ false
      → Fits xs q
      → Fits ys q
  Fits-shared (inserting src p id) xs ys e h = cc
  Fits-shared (emplacing src p id) xs ys e h = h
  Fits-shared q xs ys e h = h

module _ {Session : Type 0} where
  or_else-none : (o : Option Session) → or_else o none ≡ o
  or_else-none none = refl
  or_else-none (some x) = refl

  -- The table after a request for a key that is taken, and after an insertion.
  key_taken-table :
      (id j : ℕ) {x : Session} (y : Session) (f g : ℕ → Option Session)
      → ((k : ℕ) → f k ≡ g k)
      → f id ≡ some x
      → f j ≡ or_else (g j) (if id == j then some y else none)
  key_taken-table id j y f g same taken = elim (Bool-cases (id == j)) [
    | inl e ↦
        let k : id ≡ j = ground arith in
        let found = sym (same j) ∙ ap f (sym k) ∙ taken in rw (e, same j, found) refl
    | inr ne ↦ rw ne (same j ∙ sym (or_else-none (g j)))
  ]

  insert-table :
      (id j : ℕ) (y : Session) (f g : ℕ → Option Session)
      → ((k : ℕ) → f k ≡ g k)
      → f id ≡ none
      → (if id == j then some y else f j) ≡ or_else (g j) (if id == j then some y else none)
  insert-table id j y f g same free = elim (Bool-cases (id == j)) [
    | inl e ↦
        let k : id ≡ j = ground arith in
        let absent = sym (same j) ∙ ap f (sym k) ∙ free in rw (e, absent) refl
    | inr ne ↦ rw ne (same j ∙ sym (or_else-none (g j)))
  ]

module _ {Endpoint Session World : Type 0} (lib : Library Endpoint Session World) where
  is_new-taken :
      (id : ℕ) {x : Session} (st : State Session World)
      → find id st.relay.sessions ≡ some x
      → is_new lib (some id) st ≡ false
  unfolding find_session
  is_new-taken id st h = rw (is_new, h) refl

  is_new-free :
      (id : ℕ) (st : State Session World)
      → find id st.relay.sessions ≡ none
      → is_new lib (some id) st ≡ true
  unfolding find_session
  is_new-free id st h = rw (is_new, h) refl

module _ {Endpoint Session World : Type 0} (lib : ThreadLibrary Endpoint Session World) where
  module _ (s : System lib) (i : ℕ) (held : Held s.shared.mutex s.pc)
      (fits : (j : ℕ) → Fits (table lib s.shared) (s.pc j)) where
    Move-others :
        {q q' : Pc Endpoint Session} {cs cs' : List (Call Endpoint)} {m' : Shared lib}
        → Move lib true i s.shared q cs m' q' cs'
        → (j : ℕ) → i ≢ j
        → Same j m'.state s.shared.state
    unfolding restart_peer
    Move-others (register {p} _ _ _) j ne = counted-other i j (count_in p) s.shared.state ne
    Move-others (no_request {p} _ _) j ne = counted-other i j (count_in p) s.shared.state ne
    Move-others (look_up {p} _ _ _) j ne = counted-other i j (count_in p) s.shared.state ne
    Move-others (too_short {p} _ _) j ne = counted-other i j (count_in p) s.shared.state ne
    Move-others (restart {added}) j ne = client_restarted-other lib i j added s.shared.state ne
    Move-others (answer {p} {found}) j ne = peer_answered-other lib i j p found s.shared.state ne
    Move-others (count_sent {p}) j ne =
        Same-trans (peer_answered-other lib i j p none (counted i (count_out p) s.shared.state) ne)
          (counted-other i j (count_out p) s.shared.state ne)
    Move-others mv j ne = record { statistics = refl; worlds = refl }

    Move-threads :
        {q q' : Pc Endpoint Session} {cs cs' : List (Call Endpoint)} {m' : Shared lib}
        → Move lib true i s.shared q cs m' q' cs'
        → threads m'.state ≡ threads s.shared.state
    unfolding restart_peer
    Move-threads (register {p} _ _ _) = length-modify i (count_in p) _
    Move-threads (no_request {p} _ _) = length-modify i (count_in p) _
    Move-threads (look_up {p} _ _ _) = length-modify i (count_in p) _
    Move-threads (too_short {p} _ _) = length-modify i (count_in p) _
    Move-threads (restart {added}) = (client_restarted-frame lib i added s.shared.state).1
    Move-threads (answer {p} {found}) = (peer_answered-frame lib i p found s.shared.state).1
    Move-threads (count_sent {p}) = length-modify i (count_out p) _
    Move-threads mv = refl

    -- Only the exclusive owner of the mutex changes the map.
    Move-Fits :
        {q q' : Pc Endpoint Session} {cs cs' : List (Call Endpoint)} {m' : Shared lib}
        → Move lib true i s.shared q cs m' q' cs'
        → s.pc i ≡ q
        → (j : ℕ) → i ≢ j
        → Fits (table lib m') (s.pc j)
    unfolding restart_peer
    Move-Fits (insert {src} {p} {id}) here j ne =
        let mine : s.shared.mutex.owner ≡ some i = held.owned i (rw here refl) in
        let shared : is_exclusive (s.pc j) ≡ false = elim (Bool-cases (is_exclusive (s.pc j))) [
          | inl too ↦ absurd (let his = held.owned j too in ground arith)
          | inr h ↦ h
        ] in
        Fits-shared (s.pc j) (table lib s.shared) _ shared (fits j)
    Move-Fits (restart {added}) here j ne =
        rw (client_restarted-frame lib i added s.shared.state).0 (fits j)
    Move-Fits (answer {p} {found}) here j ne =
        rw (peer_answered-frame lib i p found s.shared.state).0 (fits j)
    Move-Fits mv here j ne = fits j

    Move-own_Fits :
        {q q' : Pc Endpoint Session} {cs cs' : List (Call Endpoint)} {m' : Shared lib}
        → Move lib true i s.shared q cs m' q' cs'
        → s.pc i ≡ q
        → Fits (table lib m') q'
    Move-own_Fits (register r e h) here = record { readable = r; eight = e; asked = h }
    Move-own_Fits (look_up r e h) here = record { readable = r; long = e; addressed = h }
    Move-own_Fits (lock_map e) here = rw here at (fits i)
    Move-own_Fits (share_map e) here = rw here at (fits i)
    Move-own_Fits (key_free e) here = (rw here at (fits i), e)
    Move-own_Fits mv here = tt

    pub Move-Frame :
        {q q' : Pc Endpoint Session} {cs cs' : List (Call Endpoint)} {m' : Shared lib}
        → Move lib true i s.shared q cs m' q' cs'
        → s.pc i ≡ q
        → Frame lib i s m' q'
    Move-Frame mv here = record {
      others = Move-others mv;
      own_fits = Move-own_Fits mv here;
      others_fit = Move-Fits mv here;
      wide = Move-threads mv;
    }

  module _ {n : ℕ} {w : ℕ → World} {calls : ℕ → List (Call Endpoint)} {s : System lib}
      (l : Linear lib n w calls s) (i : ℕ) (lt : i < n) (held : Held s.shared.mutex s.pc) where
    -- In which step a call takes effect: the look for the key if it is taken and else the insertion,
    -- the look for the session, or the call's first step where it does not need the map.
    pub Move-Advance :
        {q q' : Pc Endpoint Session} {cs cs' : List (Call Endpoint)} {m' : Shared lib}
        → Move lib true i s.shared q cs m' q' cs'
        → Frame lib i s m' q'
        → s.pc i ≡ q
        → s.todo i ≡ cs
        → Fits (table lib s.shared) q
        → Sync lib i q s.shared.state l.result
        → Advance lib i s l.result m' q' cs'
    unfolding restart_peer find_session find acts
    Move-Advance (register {p} r e h) f here left k a =
        quiet lib l i lt f (rw (here, left) refl) refl (counted-Same i (count_in p) a)
    Move-Advance (look_up {p} r e h) f here left k a =
        quiet lib l i lt f (rw (here, left) refl) refl (counted-Same i (count_in p) a)
    Move-Advance (lock_map e) f here left k a = quiet lib l i lt f (rw (here, left) refl) refl a
    Move-Advance (share_map e) f here left k a = quiet lib l i lt f (rw (here, left) refl) refl a
    Move-Advance (key_free e) f here left k a = quiet lib l i lt f (rw (here, left) refl) refl a
    Move-Advance unlock_map f here left k a = quiet lib l i lt f (rw (here, left) refl) refl a
    Move-Advance unshare_map f here left k a = quiet lib l i lt f (rw (here, left) refl) refl a
    Move-Advance (restart {added}) f here left k a =
        quiet lib l i lt f (rw (here, left) refl)
          (client_restarted-frame lib i added s.shared.state).0 a
    Move-Advance (answer {p} {found}) f here left k a =
        quiet lib l i lt f (rw (here, left) refl)
          (peer_answered-frame lib i p found s.shared.state).0 a
    Move-Advance (no_request {src} {p} r ne) f here left k a =
        let none_asked = no_request-requested p ne in
        client-effect lib l i lt src p false f (rw (here, left) refl) r (rw none_asked refl)
          (λ id. rw none_asked (l.tables id ∙ sym (or_else-none _)))
          (λ b h. Same-trans (client_restarted-Same lib i false (counted-Same i (count_in p) a)) h)
    Move-Advance (key_taken {src} {p} {id} e) f here left k a =
        let asked = Asks-requested k in
        client-effect lib l i lt src p false f (rw (here, left) refl) k.readable
          (rw asked (is_new-taken (on_thread lib i) id l.result (sym (l.tables id) ∙ e)))
          (λ j. rw asked (
            key_taken-table id j (lib.make_session src) (λ j. find j (table lib s.shared)) _
              l.tables e))
          (λ b h. Same-trans (client_restarted-Same lib i false a) h)
    Move-Advance (insert {src} {p} {id}) f here left (k, free) a =
        let asked = Asks-requested k in
        client-effect lib l i lt src p true f (rw (here, left) refl) k.readable
          (rw asked (is_new-free (on_thread lib i) id l.result (sym (l.tables id) ∙ free)))
          (λ j. rw asked (
            insert-table id j (lib.make_session src) (λ j. find j (table lib s.shared)) _ l.tables
              free))
          (λ b h.
            Same-trans
              (Same-trans
                (client_restarted-Same lib
                  {a = (with_sessions lib ((id, lib.make_session src) ∷ table lib s.shared)
                    s.shared).state}
                  {b = s.shared.state} i true (record { statistics = refl; worlds = refl }))
                (client_restarted-Same lib i true a))
              h)
    Move-Advance (too_short {src} {p} r short) f here left k a =
        peer-effect lib l i lt src p none f (rw (here, left) refl) r
          (too_short-addressee p l.result short) refl
          (peer_answered-Same lib i p none (counted-Same i (count_in p) a))
    Move-Advance (look {src} {p} {id}) f here left k a =
        peer-effect lib l i lt src p (find id (table lib s.shared)) f (rw (here, left) refl)
          k.readable (Addresses-addressee l.result k ∙ sym (l.tables id)) refl
          (peer_answered-Same lib i p (find id (table lib s.shared)) a)
    Move-Advance (count_sent {p}) f here left k a = record {
      effective = session_sent p ∷ [];
      result' = restart_peer (on_thread lib i) (counted i (count_out p) l.result);
      acted = rw (act-sent lib i p l.result (omega (arith, l.width.1))) refl;
      ordered = rw (here, left) refl;
      tables = l.tables;
      here = peer_answered-Same lib i p none (counted-Same i (count_out p) a);
      others = λ j ne. (
        f.others j ne,
        Same-trans (peer_answered-other lib i j p none (counted i (count_out p) l.result) ne)
            (counted-other i j (count_out p) l.result ne),
      );
      own_fits = tt;
      others_fit = f.others_fit;
      widths = (f.wide, length-modify i (count_out p) l.result.relay.per_thread_statistics);
    }
