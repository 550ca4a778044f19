-- ===== src/Relay/Logic/History/Received.antt =====
-- What the statistics say of a history: every received packet and byte, once.
use urn.Prelude.{
  ℕ, zero, suc, ◌+◌, ◌%◌, ◌<◌, ◌≡◌, ◌≢◌, refl, sym, ap, ◌∙◌, inl, inr, Bool, List, [], ◌∷◌, ok,
  >>=-eq-ok, arith, map, length,
}
use urn.Relay.Packet.{Packet}
use urn.Relay.Statistics.{
  size_mod, Doubles, Statistics, Direction, load_statistics, update_io_statistics,
}
use urn.Relay.Statistics.Laws.{load_statistics-Totals, sum_of, in_bytes, in_packets}
use urn.Relay.Logic.{
  Tls, State, Library, count_in, count_out, on_peer_received, on_session_sent, restart_peer,
}
use urn.Relay.Logic.Counters.{
  IsStarted, IsReadable, counted, modify, threads, update_this_thread-counted,
}
use urn.Relay.Logic.Registration.{on_client_received-Registered}
use urn.Relay.Logic.Forwarding.{addressee, deliver_cases, on_peer_received-deliver}
use urn.Relay.Logic.History.{
  Event, client_received, peer_received, session_sent, statistics_tick, IsProper, AllProper,
  SendLaws, handle, run,
}
use urn.Relay.Logic.History.Table.{handle-threads}

-- The packets and the bytes that a call, and that a history, receives.
unfoldable pub event_packets : {Endpoint : Type 0} → Event Endpoint → ℕ
event_packets (client_received tls src p) = 1
event_packets (peer_received tls src p) = 1
event_packets _ = 0

unfoldable pub event_bytes : {Endpoint : Type 0} → Event Endpoint → ℕ
event_bytes (client_received tls src p) = p.length
event_bytes (peer_received tls src p) = p.length
event_bytes _ = 0

unfoldable pub received_packets : {Endpoint : Type 0} → List (Event Endpoint) → ℕ
unfolding event_packets
received_packets [] = 0
received_packets (e ∷ es) = event_packets e + received_packets es

unfoldable pub received_bytes : {Endpoint : Type 0} → List (Event Endpoint) → ℕ
unfolding event_bytes
received_bytes [] = 0
received_bytes (e ∷ es) = event_bytes e + received_bytes es

-- No report is made within the history.
abbrev pub IsTickless : {Endpoint : Type 0} → List (Event Endpoint) → Type 0
IsTickless [] = Unit {0}
IsTickless (e ∷ es) = ((interval : ℕ) → e ≢ statistics_tick interval) × IsTickless es

-- The counters `ys` are those of `xs` with `packets` and `bytes` received in between.
record Adds (packets bytes : ℕ) (xs ys : List Statistics) : Type 0 where
  adds_packets : sum_of in_packets ys % size_mod ≡ (sum_of in_packets xs + packets) % size_mod
  adds_bytes : sum_of in_bytes ys % size_mod ≡ (sum_of in_bytes xs + bytes) % size_mod

count_in-Adds :
    (i : ℕ) (p : Packet) (xs : List Statistics)
    → i < length xs
    → Adds 1 p.length xs (modify i (count_in p) xs)
unfolding sum_of modify count_in update_io_statistics
count_in-Adds i p [] h = elim h [ ]
count_in-Adds zero p (x ∷ xs) h = omega arith
count_in-Adds (suc i) p (x ∷ xs) h = let r = count_in-Adds i p xs (omega arith) in omega (arith, r)

same_ingress-Adds :
    (xs ys : List Statistics) → map (λ s. s.ingress) ys ≡ map (λ s. s.ingress) xs → Adds 0 0 xs ys
unfolding sum_of
same_ingress-Adds [] [] e = omega arith
same_ingress-Adds [] (y ∷ ys) e = cc
same_ingress-Adds (x ∷ xs) [] e = cc
same_ingress-Adds (x ∷ xs) (y ∷ ys) e =
    let r = same_ingress-Adds xs ys (ground arith) in
    let h : y.ingress ≡ x.ingress = ground arith in
    omega (arith, r, ap (λ (g : Direction). g.packets) h, ap (λ (g : Direction). g.bytes) h)

Adds-trans :
    {a b c e : ℕ} (xs ys zs : List Statistics)
    → Adds a b xs ys
    → Adds c e ys zs
    → Adds (a + c) (b + e) xs zs
Adds-trans xs ys zs h k = omega arith

count_out-ingress :
    (i : ℕ) (p : Packet) (xs : List Statistics)
    → map (λ s. s.ingress) (modify i (count_out p) xs) ≡ map (λ s. s.ingress) xs
unfolding modify count_out
count_out-ingress i p [] = refl
count_out-ingress zero p (x ∷ xs) = refl
count_out-ingress (suc i) p (x ∷ xs) = ap (◌∷◌ x.ingress) (count_out-ingress i p xs)

abbrev entries : {Session World : Type 0} → State Session World → List Statistics
entries st = st.relay.per_thread_statistics

module _ {Endpoint Session World : Type 0} (lib : Library Endpoint Session World) (d : Doubles)
    (laws : SendLaws lib) where
  on_peer_received-Adds :
      (tls : Tls) (i : ℕ) (src : Endpoint) (p : Packet) (st st' : State Session World) (b : Bool)
      → IsStarted i (threads st) tls
      → IsReadable p
      → on_peer_received lib tls src p st ≡ ok (b, st')
      → Adds 1 p.length (entries st) (entries st')
  unfolding restart_peer
  on_peer_received-Adds tls i src p st st' b s r h =
      let n = count_in-Adds i p (entries st) s.in_range in
      let st₁ = counted i (count_in p) st in
      elim (deliver_cases lib (λ x. lib.start_send tls x p) (addressee p st)
        (sym (on_peer_received-deliver lib i src p st s r) ∙ h)) [
          | inl (_, _, e) ↦ rw e n
          | inr (x, _, _, sent) ↦ omega (
            arith,
            Adds-trans (entries st) (entries st₁) (entries st') n (
                same_ingress-Adds (entries st₁) (entries st')
                  (laws.keeps_received tls x p st₁ st' sent)),
          )
        ]

  handle-Adds :
      (e : Event Endpoint) (st st' : State Session World)
      → ((interval : ℕ) → e ≢ statistics_tick interval)
      → IsProper (threads st) e
      → handle lib d e st ≡ ok st'
      → Adds (event_packets e) (event_bytes e) (entries st) (entries st')
  unfolding handle event_packets event_bytes on_session_sent restart_peer
  handle-Adds (client_received tls src p) st st' nt ((i, s), r) h =
      let (st₁, run₁, reg) = on_client_received-Registered lib i src p st s r in
      let same : st₁ ≡ st' = ground arith in
      rw (← same, reg.counters) (count_in-Adds i p (entries st) s.in_range)
  handle-Adds (peer_received tls src p) st st' nt ((i, s), r) h =
      let ((b, st₁), q, e) = >>=-eq-ok (on_peer_received lib tls src p st) _ h in
      on_peer_received-Adds tls i src p st st' b s r (ground arith)
  handle-Adds (session_sent tls p) st st' nt (i, s) h =
      let e = update_this_thread-counted i (count_out p) st s in
      let same : entries st' ≡ modify i (count_out p) (entries st) = ground (arith, e) in
      same_ingress-Adds (entries st) (entries st') (rw same (count_out-ingress i p (entries st)))
  handle-Adds (statistics_tick interval) st st' nt pos h = absurd (nt interval refl)

  run-Adds :
      (es : List (Event Endpoint)) (st st' : State Session World)
      → IsTickless es
      → AllProper (threads st) es
      → run lib d es st ≡ ok st'
      → Adds (received_packets es) (received_bytes es) (entries st) (entries st')
  unfolding run received_packets received_bytes
  run-Adds [] st st' t v h = let same : st ≡ st' = ground arith in rw same (omega arith)
  run-Adds (e ∷ es) st st' (nt, t) (v, vs) h =
      let (st₁, h₁, h₂) = >>=-eq-ok (handle lib d e st) (run lib d es) h in
      let n = handle-threads lib d laws e st st₁ v h₁ in
      Adds-trans (entries st) (entries st₁) (entries st') (handle-Adds e st st₁ nt v h₁)
        (run-Adds es st₁ st' t (rw n vs) h₂)

  -- Over a library whose sends keep the session map and the receive counters: after any history of
  -- calls that returned, without a report in it, the next report's totals of received packets and
  -- bytes are those that were counted before plus those that the history received, modulo 2 ^ 64:
  -- on whichever threads the packets came, whatever they held, and whether they were forwarded or not.
  pub run-load_statistics :
      (es : List (Event Endpoint)) (st st' : State Session World)
      → IsTickless es
      → AllProper (threads st) es
      → run lib d es st ≡ ok st'
      → let total = (load_statistics d (entries st')).2 in
        (in_packets total ≡ (sum_of in_packets (entries st) + received_packets es) % size_mod)
        × (in_bytes total ≡ (sum_of in_bytes (entries st) + received_bytes es) % size_mod)
  run-load_statistics es st st' t v h =
      let a = run-Adds es st st' t v h in
      omega (arith, (load_statistics-Totals d (entries st')).0, a)
