-- ===== src/Demi/Worker.antt =====
-- demi/relay.cpp: `io_worker`, `demi::session::start_send` and one turn of the loop of `worker`. What
-- the calls of Demikernel return is an input of the turn, or the parameter `Demikernel`.
pub mod Echoes
use urn.Prelude.{
  ℕ, suc, Bool, List, [], ◌∷◌, ◌++◌, length, Option, some, none, Outcome, ok, fault, abort,
  null_deref, ◌>>=◌, ◌>>◌, ensure, or_fault, Address,
}
use urn.Relay.Packet.{Packet}
use urn.Relay.Logic.{
  Tls, State, Library, on_client_received, on_peer_received, on_session_sent_with,
}

-- `dmtr_sgarray_t` with its one segment in use: an address, the segment's buffer and its bytes.
pub record Sga : Type 0 where
  pub sga_addr : Address
  pub sgaseg_buf : ℕ
  pub bytes : List ℕ

-- An operand of `dmtr_pushto`.
pub record Push : Type 0 where
  pub to : Address
  pub sga : Sga

pub record Session : Type 0 where
  pub client_endpoint : Address

-- `res` and `op_token` of the two receive vectors, `none` before they are written; `pushed` is what
-- `dmtr_pushto` was given.
pub record IoWorker : Type 0 where
  pub tx_length : ℕ
  pub clients_res : Option Sga
  pub clients_token : Option ℕ
  pub peers_res : Option Sga
  pub peers_token : Option ℕ
  pub worker_index : ℕ
  pub pushed : List Push

unfoldable pub io_worker_init : ℕ → IoWorker
io_worker_init worker_index = record {
  tx_length = 0;
  clients_res = none;
  clients_token = none;
  peers_res = none;
  peers_token = none;
  worker_index = worker_index;
  pushed = [];
}

abbrev pub St : Type 0
St = State Session IoWorker

-- `dmtr_pushto` returns a token, or `none` for an error code; `dmtr_wait` succeeds or not. Both may
-- depend on what was pushed before.
pub record Demikernel : Type 0 where
  pub pushto : List Push → Push → Option ℕ
  pub wait : List Push → ℕ → Bool

-- What `dmtr_wait_any` finds: a token's index with its result.
pub data Ready : Type 0 where
  peer_ready : Sga → Ready
  client_ready : Sga → Ready
  no_index : Ready

-- The calls of one turn: the tokens of the two `dmtr_pop`, and the result of `dmtr_wait_any`; `none`
-- is an error code.
pub record Calls : Type 0 where
  pub pop_client : Option ℕ
  pub pop_peer : Option ℕ
  pub wait_any : Option Ready

unfoldable pub io_worker_begin_frame : Calls → IoWorker → Outcome IoWorker
io_worker_begin_frame calls io = do
  client ← or_fault calls.pop_client abort
  peer ← or_fault calls.pop_peer abort
  ok (record io { tx_length = 0; clients_token = some client; peers_token = some peer })

-- `packet{sgaseg_buf, sgaseg_len}`
unfoldable pub packet_of : Sga → Packet
packet_of sga = record { address = sga.sgaseg_buf; content = sga.bytes; length = length sga.bytes }

module _ (dmtr : Demikernel) where
  -- `demi::session::start_send`
  unfoldable pub start_send : Tls → Session → Packet → St → Outcome St
  start_send tls session packet st = do
    let io = st.world
    sga ← or_fault io.clients_res null_deref
    let push : Push = record { to = sga.sga_addr; sga = sga }
    qt ← or_fault (dmtr.pushto io.pushed push) abort
    ensure (dmtr.wait io.pushed qt) abort
    on_session_sent_with (λ st. st) tls packet
        (record st {
          world = record io { tx_length = suc io.tx_length; pushed = io.pushed ++ (push ∷ []) };
        })

  -- The library that urn/relay.hpp is used with here.
  abbrev pub demi : Library Address Session IoWorker
  demi = record {
    make_session = λ client_endpoint. record { client_endpoint = client_endpoint };
    client_start_receive = λ io. io;
    peer_start_receive = λ io. io;
    start_send = start_send;
  }

  -- The three cases on `token_index`.
  unfoldable pub receive : Tls → Ready → St → Outcome St
  unfolding packet_of
  receive tls (peer_ready sga) st = do
    let st = record st { world = record (st.world) { peers_res = some sga } }
    (_, st) ← on_peer_received demi tls sga.sga_addr (packet_of sga) st
    ok st
  receive tls (client_ready sga) st = do
    let st = record st { world = record (st.world) { clients_res = some sga } }
    on_client_received demi tls sga.sga_addr (packet_of sga) st
  receive tls no_index st = ok st

  unfoldable pub turn : Tls → Calls → St → Outcome St
  unfolding receive io_worker_begin_frame
  turn tls calls st = do
    io ← io_worker_begin_frame calls st.world
    ready ← or_fault calls.wait_any abort
    receive tls ready (record st { world = io })

  -- The loop of `worker`, for the calls of so many turns.
  unfoldable pub turns : Tls → List Calls → St → Outcome St
  unfolding turn
  turns tls [] st = ok st
  turns tls (calls ∷ rest) st = do st ← turn tls calls st; turns tls rest st
