-- ===== src/Relay/Threads/Linear/Commits.antt =====
-- The steps in which no call takes effect, a client's packet does, or a peer's packet does.
use urn.Prelude.{
  ℕ, ◌<◌, ◌≡◌, ◌≢◌, refl, ap, sym, ◌∙◌, Bool, true, false, List, [], ◌∷◌, ◌++◌, Option, none, some,
  leb, arith,
}
use mathlib.Core.Path.{subst}
use urn.Relay.Packet.{Packet, sizeof_session_id}
use urn.Relay.Sessions.{find}
use urn.Relay.Sessions.Laws.{or_else}
use urn.Relay.Logic.{State, find_session, count_in, restart_peer, restart_client}
use urn.Relay.Logic.Counters.{IsReadable, counted, threads, length-modify}
use urn.Relay.Logic.Registration.{requested, grant, is_new}
use urn.Relay.Logic.Forwarding.{addressee}
use urn.Relay.Threads.{
  ThreadLibrary, Call, client_received, peer_received, acts, on_thread, Pc, client_restarted,
  peer_answered, Shared, table, System,
}
use urn.Relay.Threads.Whole.{
  Same, Same-refl, Same-sym, Same-trans, counted-other, client_restarted-other, peer_answered-other,
  act-client, act-peer,
}
use urn.Relay.Threads.Linear.{Asks, Addresses, begun, Fits, Sync, Linear}
use urn.Relay.Threads.Linear.Advance.{Advance}

pub Asks-requested : {p : Packet} {id : ℕ} → Asks p id → requested p ≡ some id
Asks-requested a = rw (a.eight, a.asked) refl

pub no_request-requested : (p : Packet) → p.length ≢ sizeof_session_id → requested p ≡ none
no_request-requested p h = ground arith

pub Addresses-addressee :
    {Session World : Type 0} {p : Packet} {id : ℕ} (st : State Session World)
    → Addresses p id
    → addressee p st ≡ find id st.relay.sessions
unfolding find_session
Addresses-addressee {p} st a =
    let long : leb sizeof_session_id p.length ≡ true = let h = a.long in ground arith in
    rw (long, a.addressed) refl

pub too_short-addressee :
    {Session World : Type 0} (p : Packet) (st : State Session World)
    → p.length < sizeof_session_id
    → addressee p st ≡ none
too_short-addressee p st h = ground arith

module _ {Endpoint Session World : Type 0} (lib : ThreadLibrary Endpoint Session World) where
  -- What the ends of the two receive handlers leave alone.
  pub client_restarted-frame :
      (i : ℕ) (added : Bool) (a : State Session (ℕ → World))
      → ((client_restarted lib i added a).relay.sessions ≡ a.relay.sessions)
        × (threads (client_restarted lib i added a) ≡ threads a)
  unfolding restart_client restart_peer
  client_restarted-frame i true a = (refl, refl)
  client_restarted-frame i false a = (refl, refl)

  pub peer_answered-frame :
      (i : ℕ) (p : Packet) (found : Option Session) (a : State Session (ℕ → World))
      → ((peer_answered lib i p found a).relay.sessions ≡ a.relay.sessions)
        × (threads (peer_answered lib i p found a) ≡ threads a)
  unfolding restart_peer
  peer_answered-frame i p none a = (refl, refl)
  peer_answered-frame i p (some x) a =
      (refl, length-modify i (lib.send_counts x p) a.relay.per_thread_statistics)

  -- What a step of thread `i` leaves to the others, and its own locals.
  pub record Frame (i : ℕ) (s : System lib) (m : Shared lib) (q : Pc Endpoint Session)
      : Type 0 where
    pub others : (j : ℕ) → i ≢ j → Same j m.state s.shared.state
    pub own_fits : Fits (table lib m) q
    pub others_fit : (j : ℕ) → i ≢ j → Fits (table lib m) (s.pc j)
    pub wide : threads m.state ≡ threads s.shared.state

  module _ {n : ℕ} {w : ℕ → World} {calls : ℕ → List (Call Endpoint)} {s : System lib}
      (l : Linear lib n w calls s) (i : ℕ) (lt : i < n) {m : Shared lib} {q : Pc Endpoint Session}
      {cs : List (Call Endpoint)} where
    pub quiet :
        Frame i s m q
        → begun (s.pc i) ++ s.todo i ≡ begun q ++ cs
        → table lib m ≡ table lib s.shared
        → Sync lib i q m.state l.result
        → Advance lib i s l.result m q cs
    unfolding acts
    quiet f e same h = record {
      effective = [];
      result' = l.result;
      acted = refl;
      ordered = e;
      tables = λ id. ap (find id) same ∙ l.tables id;
      here = h;
      others = λ j ne. (f.others j ne, Same-refl j l.result);
      own_fits = f.own_fits;
      others_fit = f.others_fit;
      widths = (f.wide, refl);
    }

    pub client-effect :
        (src : Endpoint) (p : Packet) (added : Bool)
        → Frame i s m q
        → begun (s.pc i) ++ s.todo i ≡ client_received src p ∷ (begun q ++ cs)
        → IsReadable p
        → is_new (on_thread lib i) (requested p) l.result ≡ added
        → ((id : ℕ)
            → find id (table lib m)
              ≡ or_else
                  (find id l.result.relay.sessions)
                  (grant (on_thread lib i) src (requested p) id))
        → ((b : State Session (ℕ → World))
            → Same i (client_restarted lib i added (counted i (count_in p) l.result)) b
            → Sync lib i q m.state b)
        → Advance lib i s l.result m q cs
    unfolding acts
    client-effect src p added f e r new tables here =
        let (b, acted, same, found, wide) =
          act-client lib i src p l.result (omega (arith, l.width.1)) r in
        let target = client_restarted lib i added (counted i (count_in p) l.result) in
        let same' : (j : ℕ) → Same j b target =
          subst
            (λ a. (j : ℕ) → Same j b (client_restarted lib i a (counted i (count_in p) l.result)))
            new same in
        record {
          effective = client_received src p ∷ [];
          result' = b;
          acted = rw acted refl;
          ordered = e;
          tables = λ id. tables id ∙ sym (found id);
          here = here b (Same-sym (same' i));
          others = λ j ne. (
            f.others j ne,
            Same-trans (same' j) (
                Same-trans (client_restarted-other lib i j added _ ne)
                  (counted-other i j (count_in p) l.result ne)),
          );
          own_fits = f.own_fits;
          others_fit = f.others_fit;
          widths = (f.wide, wide);
        }

    pub peer-effect :
        (src : Endpoint) (p : Packet) (found : Option Session)
        → Frame i s m q
        → begun (s.pc i) ++ s.todo i ≡ peer_received src p ∷ (begun q ++ cs)
        → IsReadable p
        → addressee p l.result ≡ found
        → table lib m ≡ table lib s.shared
        → Sync lib i q m.state (peer_answered lib i p found (counted i (count_in p) l.result))
        → Advance lib i s l.result m q cs
    unfolding acts
    peer-effect src p found f e r who same h =
        let counts = counted i (count_in p) l.result in
        let frame = peer_answered-frame i p found counts in
        record {
          effective = peer_received src p ∷ [];
          result' = peer_answered lib i p found counts;
          acted = rw (act-peer lib i src p l.result (omega (arith, l.width.1)) r, who) refl;
          ordered = e;
          tables = λ id. ap (find id) same ∙ l.tables id ∙ ap (find id) (sym frame.0);
          here = h;
          others = λ j ne. (
            f.others j ne,
            Same-trans (peer_answered-other lib i j p found counts ne)
                (counted-other i j (count_in p) l.result ne),
          );
          own_fits = f.own_fits;
          others_fit = f.others_fit;
          widths =
              (f.wide, frame.1 ∙ length-modify i (count_in p) l.result.relay.per_thread_statistics);
        }
