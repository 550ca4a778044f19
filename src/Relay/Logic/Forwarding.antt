-- ===== src/Relay/Logic/Forwarding.antt =====
-- `on_peer_received`, its overload with a callback, and `receive_peer_data`: forwarding.
use urn.Prelude.{
  ◌⊎◌, >>=-eq-ok, ℕ, ◌≡◌, refl, ◌∙◌, inl, inr, Bool, true, false, Option, none, some, Outcome, ok,
  ◌>>=◌, arith, leb, if◌then◌else◌, Bool-cases,
}
use urn.Relay.Packet.{Packet, sizeof_session_id, get_session_id}
use urn.Relay.Logic.{
  Tls, State, Library, count_in, find_session, restart_peer, not_forwarded, receive_peer_data,
  on_peer_received, on_peer_received_with,
}
use urn.Relay.Logic.Counters.{
  IsStarted, IsReadable, IsReadable-id, threads, counted, update_this_thread-counted,
}

module _ {Session World : Type 0} where
  -- The session that a peer's packet is meant for: that of the identifier in its first eight bytes.
  abbrev pub addressee : Packet → State Session World → Option Session
  addressee p st =
      if leb sizeof_session_id p.length
      then elim (get_session_id p.content) [ ok id ↦ find_session id st | _ ↦ none ]
      else none

  -- `receive_peer_data` counts the packet and returns the addressee.
  pub receive_peer_data-addressee :
      {tls : Tls} (i : ℕ) (p : Packet) (st : State Session World)
      → IsStarted i (threads st) tls
      → IsReadable p
      → receive_peer_data tls p st ≡ ok (addressee p st, counted i (count_in p) st)
  unfolding receive_peer_data find_session
  receive_peer_data-addressee i p st s r = elim (Bool-cases (leb sizeof_session_id p.length)) [
    | inl long ↦
        let (id, h) = IsReadable-id p r (ground arith) in
        rw (update_this_thread-counted i (count_in p) st s, long, h)
    | inr short ↦ rw (update_this_thread-counted i (count_in p) st s, short)
  ]

module _ {Endpoint Session World : Type 0} (lib : Library Endpoint Session World) where
  abbrev pub deliver :
      (Session → State Session World → Outcome (State Session World))
      → Option Session
      → State Session World
      → Outcome (Bool × State Session World)
  deliver send none st = ok (false, restart_peer lib st)
  deliver send (some session) st = do st ← send session st; ok (true, st)

  pub on_peer_received_with-deliver :
      {tls : Tls} (i : ℕ) (p : Packet)
      (send : Session → State Session World → Outcome (State Session World))
      (st : State Session World)
      → IsStarted i (threads st) tls
      → IsReadable p
      → on_peer_received_with lib tls p send st
        ≡ deliver send (addressee p st) (counted i (count_in p) st)
  unfolding on_peer_received_with find_session not_forwarded
  on_peer_received_with-deliver i p send st s r =
      elim (Bool-cases (leb sizeof_session_id p.length)) [
        | inl long ↦
            let (id, h) = IsReadable-id p r (ground arith) in
            rw (update_this_thread-counted i (count_in p) st s, long, h) (ground arith)
        | inr short ↦ rw (update_this_thread-counted i (count_in p) st s, short)
      ]

  on_peer_received-with :
      (tls : Tls) (src : Endpoint) (p : Packet) (st : State Session World)
      → on_peer_received lib tls src p st
        ≡ on_peer_received_with lib tls p (λ x. lib.start_send tls x p) st
  unfolding on_peer_received on_peer_received_with
  on_peer_received-with tls src p st = refl

  -- On a started thread a readable peer packet is counted in the thread's own entry. If its first
  -- eight bytes name a registered session, it is handed to `start_send` of that session and of no
  -- other, and the call returns true; in every other case the peer receive is restarted, nothing is
  -- sent, and the call returns false.
  pub on_peer_received-deliver :
      {tls : Tls} (i : ℕ) (src : Endpoint) (p : Packet) (st : State Session World)
      → IsStarted i (threads st) tls
      → IsReadable p
      → on_peer_received lib tls src p st
        ≡ deliver (λ x. lib.start_send tls x p) (addressee p st) (counted i (count_in p) st)
  on_peer_received-deliver {tls} i src p st s r =
      on_peer_received-with tls src p st
      ∙ on_peer_received_with-deliver i p (λ x. lib.start_send tls x p) st s r

  -- What a delivery that returned has done.
  pub deliver_cases :
      (send : Session → State Session World → Outcome (State Session World)) (o : Option Session)
      {st st' : State Session World} {b : Bool}
      → deliver send o st ≡ ok (b, st')
      → ((o ≡ none) × (b ≡ false) × (st' ≡ restart_peer lib st))
        ⊎ ((x : Session) × (o ≡ some x) × (b ≡ true) × (send x st ≡ ok st'))
  deliver_cases send none h = inl (refl, ground arith, ground arith)
  deliver_cases send (some x) {st} {st'} {b} h =
      let (st₁, e, r) = >>=-eq-ok (send x st) (λ s. ok (true, s)) h in
      inr (x, refl, ground arith, ground arith)
