-- ===== src/Relay/Logic/Registration.antt =====
-- `on_client_received`: registration of sessions.
use urn.Prelude.{
  ℕ, ◌≡◌, refl, inl, inr, Bool, true, false, Option, none, some, ok, arith, if◌then◌else◌, ◌==◌,
  Bool-cases,
}
use urn.Relay.Packet.{Packet, sizeof_session_id, get_session_id}
use urn.Relay.Sessions.{try_emplace}
use urn.Relay.Sessions.Laws.{or_else, find-try_emplace}
use urn.Relay.Logic.{
  Tls, State, Library, count_in, find_session, try_register_session, register, restart_client,
  restart_peer, on_client_received,
}
use urn.Relay.Logic.Counters.{
  IsStarted, IsReadable, IsReadable-id, threads, counted, modify, update_this_thread-counted,
}

-- The identifier that a client's packet asks for: only a packet of exactly eight bytes does.
abbrev pub requested : Packet → Option ℕ
requested p =
    if p.length == sizeof_session_id
    then elim (get_session_id p.content) [ ok id ↦ some id | _ ↦ none ]
    else none

abbrev pub is_some {ℓ} : {A : Type ℓ} → Option A → Bool
is_some none = false
is_some (some _) = true

module _ {Endpoint Session World : Type 0} (lib : Library Endpoint Session World) where
  -- What a requested identifier adds to the table.
  abbrev pub grant : Endpoint → Option ℕ → ℕ → Option Session
  grant src none j = none
  grant src (some id) j = if id == j then some (lib.make_session src) else none

  -- The request is granted: the packet names an identifier that was not registered.
  abbrev pub is_new : Option ℕ → State Session World → Bool
  is_new none st = false
  is_new (some id) st = elim (find_session id st) [ none ↦ true | some _ ↦ false ]

  -- The table after a client's packet, the restarted receives, and the counters.
  pub record Registered (i : ℕ) (src : Endpoint) (p : Packet) (st st' : State Session World)
      : Type 0 where
    pub table :
        (j : ℕ) → find_session j st' ≡ or_else (find_session j st) (grant src (requested p) j)
    pub receives :
        st'.world
        ≡ lib.client_start_receive
            (if is_new (requested p) st then lib.peer_start_receive st.world else st.world)
    pub counters :
        st'.relay.per_thread_statistics ≡ modify i (count_in p) st.relay.per_thread_statistics

  register-Registered :
      (i : ℕ) (src : Endpoint) (p : Packet) (id : ℕ) (st : State Session World)
      → p.length ≡ 8
      → get_session_id p.content ≡ ok id
      → (st' : State Session World) × (register lib src p (counted i (count_in p) st) ≡ ok st')
        × Registered i src p st (restart_client lib st')
  unfolding register try_register_session find_session restart_client restart_peer try_emplace
  register-Registered i src p id st e h =
      let r = try_register_session lib id src (counted i (count_in p) st) in
      (
        if r.0 then restart_peer lib r.1 else r.1,
        rw h refl,
        record {
          table =
              λ j. ground (arith, find-try_emplace id j (lib.make_session src) st.relay.sessions);
          receives = ground arith;
          counters = ground arith;
        },
      )

  -- On a started thread a readable client packet is always handled. It is counted in the thread's own
  -- entry; a packet of exactly eight bytes registers its sender under the identifier that it holds,
  -- unless the identifier is taken, and every other identifier keeps its session. The client receive
  -- is restarted in any case, and before it the peer receive if the registration is new.
  pub on_client_received-Registered :
      {tls : Tls} (i : ℕ) (src : Endpoint) (p : Packet) (st : State Session World)
      → IsStarted i (threads st) tls
      → IsReadable p
      → (st' : State Session World) × (on_client_received lib tls src p st ≡ ok st')
        × Registered i src p st st'
  unfolding on_client_received find_session
  on_client_received-Registered {tls} i src p st s r =
      elim (Bool-cases (p.length == sizeof_session_id)) [
        | inl named ↦
            let e : p.length ≡ 8 = ground arith in
            let (id, h) = IsReadable-id p r (omega arith) in
            let (st', run, reg) = register-Registered i src p id st e h in
            (
              restart_client lib st',
              rw (update_this_thread-counted i (count_in p) st s, named, run),
              reg,
            )
        | inr other ↦ (
          restart_client lib (counted i (count_in p) st),
          rw (update_this_thread-counted i (count_in p) st s, other),
          record { table = λ j. ground arith; receives = ground arith; counters = ground arith },
        )
      ]
