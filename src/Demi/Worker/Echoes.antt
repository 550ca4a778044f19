-- ===== src/Demi/Worker/Echoes.antt =====
-- demi/relay.cpp: what leaves through the client socket.
use urn.Prelude.{
  ℕ, suc, ◌≡◌, refl, sym, ◌∙◌, Bool, true, false, List, [], ◌∷◌, ◌++◌, Option, none, some, ok,
  arith, length, Address, inl, inr, Bool-cases, Option-cases, >>=-eq-ok, or_fault, abort,
  if◌then◌else◌,
}
use mathlib.Core.Path.{subst}
use urn.Relay.Packet.{Packet}
use urn.Relay.Logic.{
  Tls, Relay, count_in, count_out, on_client_received, on_peer_received, restart_peer,
}
use urn.Relay.Logic.Counters.{
  IsStarted, IsReadable, threads, counted, length-modify, update_this_thread-counted,
}
use urn.Relay.Logic.Registration.{on_client_received-Registered}
use urn.Relay.Logic.Forwarding.{addressee, deliver_cases, on_peer_received-deliver}
use urn.Demi.Worker.{
  Sga, Push, IoWorker, St, Session, Demikernel, Ready, peer_ready, client_ready, no_index, Calls,
  packet_of, start_send, demi, receive, turn, turns, io_worker_begin_frame, io_worker_init,
}

-- Every datagram that was pushed went back to the address that it came from, and has the property.
abbrev pub AllEchoed : (Sga → Type 0) → List Push → Type 0
AllEchoed P [] = Unit {0}
AllEchoed P (p ∷ ps) = ((p.to ≡ p.sga.sga_addr) × P p.sga) × AllEchoed P ps

abbrev pub Latest : (Sga → Type 0) → Option Sga → Type 0
Latest P none = Unit {0}
Latest P (some sga) = P sga

pub record Echo (P : Sga → Type 0) (i : ℕ) (tls : Tls) (st : St) : Type 0 where
  pub started : IsStarted i (threads st) tls
  pub last : Latest P st.world.clients_res
  pub echoed : AllEchoed P st.world.pushed

AllEchoed-append :
    (P : Sga → Type 0) (ps : List Push) (sga : Sga)
    → AllEchoed P ps
    → P sga
    → AllEchoed P (ps ++ (record { to = sga.sga_addr; sga = sga } ∷ []))
AllEchoed-append P [] sga a h = ((refl, h), tt)
AllEchoed-append P (p ∷ ps) sga (e, a) h = (e, AllEchoed-append P ps sga a h)

module _ (dmtr : Demikernel) (P : Sga → Type 0) where
  start_send-Echo :
      {tls : Tls} (i : ℕ) (x : Session) (p : Packet) (st st' : St)
      → Echo P i tls st
      → start_send dmtr tls x p st ≡ ok st'
      → Echo P i tls st'
  unfolding start_send
  start_send-Echo {tls = tls} i x p st st' e h = elim (Option-cases st.world.clients_res) [
    | inl empty ↦ absurd (ground arith)
    | inr (sga, there) ↦
        let push : Push = record { to = sga.sga_addr; sga = sga } in
        elim (Option-cases (dmtr.pushto st.world.pushed push)) [
          | inl refused ↦ absurd (ground arith)
          | inr (qt, given) ↦ elim (Bool-cases (dmtr.wait st.world.pushed qt)) [
            | inl done ↦
                let io : IoWorker = record (st.world) {
                  tx_length = suc st.world.tx_length;
                  pushed = st.world.pushed ++ (push ∷ []);
                } in
                let st₁ : St = record st { world = io } in
                let count = update_this_thread-counted i (count_out p) st₁ e.started in
                let run : start_send dmtr tls x p st ≡ ok (counted i (count_out p) st₁) =
                  ground arith in
                let same : counted i (count_out p) st₁ ≡ st' = cc in
                let last : P sga = subst (Latest P) there e.last in
                subst (Echo P i tls) same (record {
                  started =
                      rw (length-modify i (count_out p) st.relay.per_thread_statistics) e.started;
                  last = e.last;
                  echoed = AllEchoed-append P st.world.pushed sga e.echoed last;
                })
            | inr failed ↦ absurd (ground arith)
          ]
        ]
  ]

  -- The property holds of what a client has sent.
  abbrev pub FromClient : Ready → Type 0
  FromClient (peer_ready sga) = Unit {0}
  FromClient (client_ready sga) = P sga
  FromClient no_index = Unit {0}

  packet_of-IsReadable : (sga : Sga) → IsReadable (packet_of sga)
  unfolding packet_of
  packet_of-IsReadable sga = omega arith

  counted-Echo :
      {tls : Tls} (i : ℕ) (p : Packet) (st : St)
      → Echo P i tls st
      → Echo P i tls (counted i (count_in p) st)
  counted-Echo i p st e = record {
    started = rw (length-modify i (count_in p) st.relay.per_thread_statistics) e.started;
    last = e.last;
    echoed = e.echoed;
  }

  peer-Echo :
      {tls : Tls} (i : ℕ) (src : Address) (p : Packet) (st st' : St) (b : Bool)
      → IsReadable p
      → Echo P i tls st
      → on_peer_received (demi dmtr) tls src p st ≡ ok (b, st')
      → Echo P i tls st'
  unfolding restart_peer
  peer-Echo {tls = tls} i src p st st' b r e h =
      let st₁ = counted i (count_in p) st in
      let e₁ = counted-Echo i p st e in
      elim (deliver_cases (demi dmtr) (λ x. start_send dmtr tls x p) (addressee p st)
        (sym (on_peer_received-deliver (demi dmtr) i src p st e.started r) ∙ h)) [
          | inl (_, _, same) ↦ subst (Echo P i tls) (sym same) e₁
          | inr (x, _, _, sent) ↦ start_send-Echo i x p st₁ st' e₁ sent
        ]

  either : (b : Bool) (io : IoWorker) → (if b then io else io) ≡ io
  either true io = refl
  either false io = refl

  client-Echo :
      {tls : Tls} (i : ℕ) (src : Address) (p : Packet) (st st' : St)
      → IsReadable p
      → Echo P i tls st
      → on_client_received (demi dmtr) tls src p st ≡ ok st'
      → Echo P i tls st'
  client-Echo {tls = tls} i src p st st' r e h =
      let (st₁, run, g) = on_client_received-Registered (demi dmtr) i src p st e.started r in
      let same : st₁ ≡ st' = cc in
      let world : st₁.world ≡ st.world = g.receives ∙ either _ st.world in
      subst (Echo P i tls) same (record {
        started =
            rw (g.counters, length-modify i (count_in p) st.relay.per_thread_statistics) e.started;
        last = rw world e.last;
        echoed = rw world e.echoed;
      })

  receive-Echo :
      {tls : Tls} (i : ℕ) (ready : Ready) (st st' : St)
      → FromClient ready
      → Echo P i tls st
      → receive dmtr tls ready st ≡ ok st'
      → Echo P i tls st'
  unfolding receive
  receive-Echo {tls = tls} i (peer_ready sga) st st' c e h =
      let st₀ : St = record st { world = record (st.world) { peers_res = some sga } } in
      let e₀ : Echo P i tls st₀ = record {
        started = e.started;
        last = e.last;
        echoed = e.echoed;
      } in
      let ((b, st₁), run, last) =
        >>=-eq-ok (on_peer_received (demi dmtr) tls sga.sga_addr (packet_of sga) st₀) _ h in
      let same : st₁ ≡ st' = ground arith in
      subst (Echo P i tls) same
        (peer-Echo i sga.sga_addr (packet_of sga) st₀ st₁ b (packet_of-IsReadable sga) e₀ run)
  receive-Echo {tls = tls} i (client_ready sga) st st' c e h =
      client-Echo i sga.sga_addr (packet_of sga)
        (record st { world = record (st.world) { clients_res = some sga } }) st'
        (packet_of-IsReadable sga) (record { started = e.started; last = c; echoed = e.echoed }) h
  receive-Echo {tls = tls} i no_index st st' c e h =
      let same : st ≡ st' = cc in subst (Echo P i tls) same e

  abbrev FromReady : Option Ready → Type 0
  FromReady none = Unit {0}
  FromReady (some ready) = FromClient ready

  -- The property holds of every datagram that a client has sent in these turns.
  abbrev pub AllFromClient : List Calls → Type 0
  AllFromClient [] = Unit {0}
  AllFromClient (calls ∷ rest) = FromReady calls.wait_any × AllFromClient rest

  turn-Echo :
      {tls : Tls} (i : ℕ) (calls : Calls) (rest : List Calls) (st st' : St)
      → AllFromClient (calls ∷ rest)
      → Echo P i tls st
      → turn dmtr tls calls st ≡ ok st'
      → Echo P i tls st'
  unfolding turn io_worker_begin_frame
  turn-Echo {tls = tls} i calls rest st st' c e h =
      let (io, begun, h₁) = >>=-eq-ok (io_worker_begin_frame calls st.world) _ h in
      let (client, _, b₁) = >>=-eq-ok (or_fault calls.pop_client abort) _ begun in
      let (peer, _, b₂) = >>=-eq-ok (or_fault calls.pop_peer abort) _ b₁ in
      let (ready, found, run) = >>=-eq-ok (or_fault calls.wait_any abort) _ h₁ in
      let io₁ : IoWorker = record (st.world) {
        tx_length = 0;
        clients_token = some client;
        peers_token = some peer;
      } in
      let same : io₁ ≡ io = cc in
      let some_ready : calls.wait_any ≡ some ready = ground arith in
      let c₁ : FromClient ready = subst FromReady some_ready c.0 in
      receive-Echo i ready (record st { world = io }) st' c₁
        (subst (λ w. Echo P i tls (record st { world = w })) same
          (record { started = e.started; last = e.last; echoed = e.echoed }))
        run

  turns-Echo :
      {tls : Tls} (i : ℕ) (es : List Calls) (st st' : St)
      → AllFromClient es
      → Echo P i tls st
      → turns dmtr tls es st ≡ ok st'
      → Echo P i tls st'
  unfolding turns
  turns-Echo {tls = tls} i [] st st' c e h = let same : st ≡ st' = cc in subst (Echo P i tls) same e
  turns-Echo {tls = tls} i (calls ∷ rest) st st' c e h =
      let (st₁, run, h₁) = >>=-eq-ok (turn dmtr tls calls st) _ h in
      turns-Echo i rest st₁ st' c.1 (turn-Echo i calls rest st st₁ c e run) h₁

  -- Whatever a started thread's worker receives, in any turns that return: each datagram that it has
  -- pushed went back to the address
  -- that it came from, and any property that all datagrams from the client socket have holds of it.
  pub turns-echoed :
      {tls : Tls} (i worker_index : ℕ) (es : List Calls) (r : Relay Session) (st : St)
      → IsStarted i (length r.per_thread_statistics) tls
      → AllFromClient es
      → turns dmtr tls es (record { relay = r; world = io_worker_init worker_index }) ≡ ok st
      → AllEchoed P st.world.pushed
  unfolding io_worker_init
  turns-echoed i worker_index es r st s c h =
      (turns-Echo i es (record { relay = r; world = io_worker_init worker_index }) st c
        (record { started = s; last = tt; echoed = tt }) h).echoed
