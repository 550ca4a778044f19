-- ===== src/Relay/Threads/Linear/Advance.antt =====
-- One step of one thread, in an interleaved state that a history explains.
use urn.Prelude.{
  ℕ, ◌≡◌, ◌≢◌, refl, ap, sym, ◌∙◌, inl, inr, List, [], ◌∷◌, ◌++◌, ok, ◌==◌, update, arith,
  Bool-cases, >>=-eq-ok,
}
use mathlib.Core.Path.{subst}
use mathlib.Core.List.{append_assoc}
use urn.Relay.Sessions.{find}
use urn.Relay.Logic.{State, count_in}
use urn.Relay.Logic.Counters.{threads}
use urn.Relay.Threads.{
  ThreadLibrary, Call, act, acts, Pc, idle, registering, emplacing, inserting, unlocking,
  restarting, finding, looking, leaving, answering, Shared, table, System,
}
use urn.Relay.Threads.Whole.{
  Same, Same-sym, Same-trans, counted-Same, client_restarted-Same, peer_answered-Same,
}
use urn.Relay.Threads.Linear.{calls_of, begun, Fits, Sync, Linear}

abbrev pub tagged : {Endpoint : Type 0} → ℕ → List (Call Endpoint) → List (ℕ × Call Endpoint)
tagged i [] = []
tagged i (c ∷ cs) = (i, c) ∷ tagged i cs

module _ {Endpoint : Type 0} where
  calls_of-append :
      (i : ℕ) (es fs : List (ℕ × Call Endpoint))
      → calls_of i (es ++ fs) ≡ calls_of i es ++ calls_of i fs
  calls_of-append i [] fs = refl
  calls_of-append i ((j, c) ∷ es) fs = ground (arith, calls_of-append i es fs)

  calls_of-tagged : (i : ℕ) (cs : List (Call Endpoint)) → calls_of i (tagged i cs) ≡ cs
  calls_of-tagged i [] = refl
  calls_of-tagged i (c ∷ cs) = ground (arith, calls_of-tagged i cs)

  calls_of-others : (i j : ℕ) (cs : List (Call Endpoint)) → i ≢ j → calls_of j (tagged i cs) ≡ []
  calls_of-others i j [] ne = refl
  calls_of-others i j (c ∷ cs) ne = ground (arith, calls_of-others i j cs ne)

  order-here :
      (i : ℕ) (es : List (ℕ × Call Endpoint)) (cs rest todo all : List (Call Endpoint))
      → rest ≡ cs ++ todo
      → calls_of i es ++ rest ≡ all
      → calls_of i (es ++ tagged i cs) ++ todo ≡ all
  order-here i es cs rest todo all e h =
      rw (calls_of-append i es (tagged i cs), calls_of-tagged i cs)
        (append_assoc (calls_of i es) cs todo ∙ ap (◌++◌ (calls_of i es)) (sym e) ∙ h)

  order-there :
      (i j : ℕ) (es : List (ℕ × Call Endpoint)) (cs rest all : List (Call Endpoint))
      → i ≢ j
      → calls_of j es ++ rest ≡ all
      → calls_of j (es ++ tagged i cs) ++ rest ≡ all
  order-there i j es cs rest all ne h =
      rw (calls_of-append j es (tagged i cs), calls_of-others i j cs ne)
        (append_assoc (calls_of j es) [] rest ∙ h)

module _ {Endpoint Session World : Type 0} (lib : ThreadLibrary Endpoint Session World) where
  acts-append :
      (es fs : List (ℕ × Call Endpoint)) (a b : State Session (ℕ → World))
      → acts lib es a ≡ ok b
      → acts lib (es ++ fs) a ≡ acts lib fs b
  unfolding acts
  acts-append [] fs a b h = ground arith
  acts-append ((i, c) ∷ es) fs a b h =
      let (a₁, h₁, h₂) = >>=-eq-ok (act lib i c a) (acts lib es) h in
      rw h₁ (acts-append es fs a₁ b h₂)

  Sync-Same :
      (i : ℕ) (p : Pc Endpoint Session) {a a' b b' : State Session (ℕ → World)}
      → Same i a' a
      → Same i b b'
      → Sync lib i p a b
      → Sync lib i p a' b'
  Sync-Same i idle ea eb h = Same-trans ea (Same-trans h eb)
  Sync-Same i (registering src p id) ea eb h =
      Same-trans ea (Same-trans h (counted-Same i (count_in p) eb))
  Sync-Same i (emplacing src p id) ea eb h =
      Same-trans ea (Same-trans h (counted-Same i (count_in p) eb))
  Sync-Same i (inserting src p id) ea eb h =
      Same-trans ea (Same-trans h (counted-Same i (count_in p) eb))
  Sync-Same i (finding src p id) ea eb h =
      Same-trans ea (Same-trans h (counted-Same i (count_in p) eb))
  Sync-Same i (looking src p id) ea eb h =
      Same-trans ea (Same-trans h (counted-Same i (count_in p) eb))
  Sync-Same i (unlocking added) ea eb h =
      Same-trans (client_restarted-Same lib i added ea) (Same-trans h eb)
  Sync-Same i (restarting added) ea eb h =
      Same-trans (client_restarted-Same lib i added ea) (Same-trans h eb)
  Sync-Same i (leaving p found) ea eb h =
      Same-trans (peer_answered-Same lib i p found ea) (Same-trans h eb)
  Sync-Same i (answering p found) ea eb h =
      Same-trans (peer_answered-Same lib i p found ea) (Same-trans h eb)

  -- What a step of thread `i` does to the interleaved state, and the calls that take effect in it.
  pub record Advance (i : ℕ) (s : System lib) (result : State Session (ℕ → World)) (m : Shared lib)
      (q : Pc Endpoint Session) (cs : List (Call Endpoint)) : Type 0 where
    pub effective : List (Call Endpoint)
    pub result' : State Session (ℕ → World)
    pub acted : acts lib (tagged i effective) result ≡ ok result'
    pub ordered : begun (s.pc i) ++ s.todo i ≡ effective ++ (begun q ++ cs)
    pub tables : (id : ℕ) → find id (table lib m) ≡ find id result'.relay.sessions
    pub here : Sync lib i q m.state result'
    pub others : (j : ℕ) → i ≢ j → Same j m.state s.shared.state × Same j result' result
    pub own_fits : Fits (table lib m) q
    pub others_fit : (j : ℕ) → i ≢ j → Fits (table lib m) (s.pc j)
    pub widths : (threads m.state ≡ threads s.shared.state) × (threads result' ≡ threads result)

  pub Advance-Linear :
      {n : ℕ} {w : ℕ → World} {calls : ℕ → List (Call Endpoint)} {s : System lib} (i : ℕ)
      {m : Shared lib} {q : Pc Endpoint Session} {cs : List (Call Endpoint)}
      (l : Linear lib n w calls s)
      → Advance i s l.result m q cs
      → Linear lib n w calls
          (record { shared = m; pc = update s.pc i q; todo = update s.todo i cs })
  Advance-Linear {calls} {s} i {m} {q} {cs} l v = record {
    history = l.history ++ tagged i v.effective;
    result = v.result';
    runs = acts-append l.history (tagged i v.effective) _ l.result l.runs ∙ v.acted;
    order = λ j. elim (Bool-cases (i == j)) [
      | inl same ↦
          let e : i ≡ j = ground arith in
          rw same (
            subst (λ k. calls_of k (l.history ++ tagged i v.effective) ++ (begun q ++ cs) ≡ calls k)
              e
              (order-here i l.history v.effective (begun (s.pc i) ++ s.todo i) (begun q ++ cs)
                (calls i) v.ordered (l.order i)))
      | inr other ↦ rw other (
          order-there i j l.history v.effective (begun (s.pc j) ++ s.todo j) (calls j)
            (ground arith) (l.order j))
    ];
    tables = v.tables;
    sync = λ j. elim (Bool-cases (i == j)) [
      | inl same ↦
          let e : i ≡ j = ground arith in
          rw same (subst (λ k. Sync lib k q m.state v.result') e v.here)
      | inr other ↦
          let (a, b) = v.others j (ground arith) in
          rw other (Sync-Same j (s.pc j) a (Same-sym b) (l.sync j))
    ];
    fits = λ j. elim (Bool-cases (i == j)) [
      | inl same ↦ rw same v.own_fits
      | inr other ↦ rw other (v.others_fit j (ground arith))
    ];
    width = (v.widths.0 ∙ l.width.0, v.widths.1 ∙ l.width.1);
  }
