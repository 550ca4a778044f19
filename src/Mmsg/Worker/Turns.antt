-- ===== src/Mmsg/Worker/Turns.antt =====
-- mmsg/relay.cpp: any number of turns of the loop of `worker`.
use urn.Prelude.{ℕ, ◌≤◌, ◌≡◌, Bool, List, [], ◌∷◌, ◌++◌, Option, length, Datagram}
use urn.Relay.Sessions.Laws.{or_else}
use urn.Relay.Logic.{Tls}
use urn.Relay.Logic.Counters.{IsStarted, threads}
use urn.Mmsg.Vectors.{k_mmsg_capacity}
use urn.Mmsg.Sending.{Answer}
use urn.Mmsg.Sending.Laws.{IsWithin, IsMild, productive}
use urn.Mmsg.Worker.{St, Session, Poll}
use urn.Mmsg.Worker.Receiving.{IsWired}
use urn.Mmsg.Worker.Forwards.{forwards}
use urn.Mmsg.Worker.Registrations.{first_client}
use urn.Mmsg.Worker.Turn.{poll_of}

-- What a turn receives from the clients and from the peers, whether its timer has expired, and the
-- answers to its sends.
pub record Input : Type 0 where
  pub clients : List Datagram
  pub peers : List Datagram
  pub expired : Bool
  pub answers : List Answer

abbrev pub as_poll : Input → Poll × List Answer
as_poll x = (poll_of x.clients x.peers x.expired, x.answers)

-- The sessions after a turn's registrations.
abbrev pub with_registered : (ℕ → Option Session) → List Datagram → ℕ → Option Session
with_registered table clients id = or_else (table id) (first_client clients id)

-- The specification of the loop: each turn forwards by the sessions after its own registrations.
unfoldable pub all_forwards : (ℕ → Option Session) → List Input → List Datagram
all_forwards table [] = []
all_forwards table (x ∷ xs) =
    forwards (with_registered table x.clients) x.peers
    ++ all_forwards (with_registered table x.clients) xs

abbrev pub all_registered : (ℕ → Option Session) → List Input → ℕ → Option Session
all_registered table [] = table
all_registered table (x ∷ xs) = all_registered (with_registered table x.clients) xs

-- The kernel hands out no more datagrams than the vectors hold and answers each turn's sends in
-- the end.
abbrev pub Served : (ℕ → Option Session) → List Input → Type 0
Served table [] = Unit {0}
Served table (x ∷ xs) =
    let out = length (forwards (with_registered table x.clients) x.peers) in
    (length x.peers ≤ k_mmsg_capacity)
    × IsWithin x.answers out
    × IsMild x.answers
    × (out ≤ productive x.answers)
    × Served (with_registered table x.clients) xs

-- A worker between two turns.
pub record IsReady (i : ℕ) (tls : Tls) (st : St) : Type 0 where
  pub is_started : IsStarted i (threads st) tls
  pub clients : IsWired st.world.clients_io.rx
  pub peers : IsWired st.world.peers_io.rx
  pub capacity : st.world.clients_io.tx.capacity ≡ k_mmsg_capacity
