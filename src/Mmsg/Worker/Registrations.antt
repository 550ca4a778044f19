-- ===== src/Mmsg/Worker/Registrations.antt =====
-- mmsg/relay.cpp: `io_run_client_receive_frame`: which sessions are registered.
use urn.Prelude.{ℕ, suc, ◌≡◌, refl, List, [], ◌∷◌, Option, none, ok, length, Datagram}
use urn.Relay.Sessions.Laws.{or_else}
use urn.Relay.Logic.{Tls, on_client_received}
use urn.Relay.Logic.Counters.{IsStarted, threads}
use urn.Relay.Logic.Registration.{grant}
use urn.Relay.Logic.Quiet.{
  Registers, same-Registers, trans-Registers, asked, on_client_received-Registers,
}
use urn.Mmsg.Worker.{St, Session, mmsg, rx_packet, client_loop}
use urn.Mmsg.Worker.Receiving.{Holds, HoldsFrom, cut}

-- The specification: an identifier's session is that of the first client that asked for it.
unfoldable pub first_client : List Datagram → ℕ → Option Session
first_client [] id = none
first_client (d ∷ ds) id = or_else (grant mmsg d.address (asked (cut d)) id) (first_client ds id)

step-Registers :
    {tls : Tls} (i j : ℕ) (d : Datagram) (st : St)
    → let rx = st.world.clients_io.rx in
      IsStarted i (threads st) tls
      → Holds rx st.world.message_mem j d
      → (st' : St) × (on_client_received mmsg tls
            (rx.addresses j)
            (rx_packet rx st.world.message_mem j)
            st
          ≡ ok st')
        × Registers (grant mmsg d.address (asked (cut d))) st st'
unfolding rx_packet
step-Registers i j d st s h =
    let rx = st.world.clients_io.rx in
    let mem = st.world.message_mem in
    rw (← h.source) (
      on_client_received-Registers mmsg i (rx.addresses j) (rx_packet rx mem j) (cut d) st
        (λ io. refl) (λ io. refl) s h.len h.content)

pub client_loop-Registers :
    {tls : Tls} (i : ℕ) (ds : List Datagram) (j : ℕ) (st : St)
    → IsStarted i (threads st) tls
    → HoldsFrom st.world.clients_io.rx st.world.message_mem j ds
    → (st' : St) × (client_loop tls (length ds) j st ≡ ok st') × Registers (first_client ds) st st'
unfolding client_loop first_client
client_loop-Registers i [] j st s h = (st, refl, same-Registers st)
client_loop-Registers {tls = tls} i (d ∷ ds) j st s (h, hs) =
    let (st₁, run, f) = step-Registers i j d st s h in
    let s₁ : IsStarted i (threads st₁) tls = rw f.same_threads s in
    let hs₁ : HoldsFrom st₁.world.clients_io.rx st₁.world.message_mem (suc j) ds =
      rw f.same_world hs in
    let (st₂, rest, g) = client_loop-Registers i ds (suc j) st₁ s₁ hs₁ in
    (
      st₂,
      rw (run, rest) refl,
      trans-Registers (grant mmsg d.address (asked (cut d))) (first_client ds) st st₁ st₂ f g,
    )
