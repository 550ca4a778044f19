-- ===== src/Mmsg/Worker/Queue.antt =====
-- mmsg/relay.cpp: what `mmsg::session::start_send` queues.
use urn.Prelude.{
  ℕ, zero, suc, ◌+◌, ◌≤◌, ◌<◌, ◌≡◌, refl, sym, ap, ◌∙◌, true, false, List, [], ◌∷◌, ◌++◌, ok, arith,
  ltb, ◌==◌, lt→ltb, take, Address, update, Datagram,
}
use urn.Relay.Packet.{Packet}
use urn.Relay.Logic.{Tls, count_out}
use urn.Relay.Logic.Counters.{IsStarted, threads, counted, update_this_thread-counted}
use urn.Mmsg.Vectors.{IoVectors, IoWorker}
use urn.Mmsg.Sending.{messages_from}
use urn.Mmsg.Sending.Laws.{messages_from-add}
use urn.Mmsg.Worker.{St, Session, enqueue, start_send}

-- The datagrams that the send frame is to send.
abbrev pub queue : IoWorker → List Datagram
queue io = messages_from io.clients_io.tx io.message_mem 0 io.clients_io.tx_length

-- The vectors with one message written.
abbrev write_message : ℕ → Address → ℕ → ℕ → IoVectors → IoVectors
write_message i a base len tx = record tx {
  addresses = update tx.addresses i a;
  iov_base = update tx.iov_base i base;
  iov_len = update tx.iov_len i len;
}

messages_from-below :
    (tx : IoVectors) (mem : ℕ → List ℕ) (i : ℕ) (a : Address) (base len o n : ℕ)
    → o + n ≤ i
    → messages_from (write_message i a base len tx) mem o n ≡ messages_from tx mem o n
unfolding messages_from
messages_from-below tx mem i a base len o zero h = refl
messages_from-below tx mem i a base len o (suc n) h =
    let other : (i == o) ≡ false = ground arith in
    rw (other, messages_from-below tx mem i a base len (suc o) n (omega (arith, h))) refl

messages_from-at :
    (tx : IoVectors) (mem : ℕ → List ℕ) (i : ℕ) (a : Address) (base len : ℕ)
    → messages_from (write_message i a base len tx) mem i 1
      ≡ record { address = a; bytes = take len (mem base) } ∷ []
unfolding messages_from
messages_from-at tx mem i a base len = let self : (i == i) ≡ true = ground arith in rw self refl

-- What sending leaves as it is.
pub record Kept (io io' : IoWorker) : Type 0 where
  pub memory : io'.message_mem ≡ io.message_mem
  pub peers : io'.peers_io ≡ io.peers_io
  pub clients : io'.clients_io.rx ≡ io.clients_io.rx
  pub out : io'.sent ≡ io.sent
  pub capacity : io'.clients_io.tx.capacity ≡ io.clients_io.tx.capacity

pub record Queued (d : Datagram) (io io' : IoWorker) : Type 0 where
  pub last : queue io' ≡ queue io ++ (d ∷ [])
  pub grown : io'.clients_io.tx_length ≡ suc io.clients_io.tx_length
  pub kept : Kept io io'

enqueue-Queued :
    (a : Address) (base len : ℕ) (io : IoWorker)
    → io.clients_io.tx_length < io.clients_io.tx.capacity
    → (io' : IoWorker) × (enqueue a base len io ≡ ok io')
      × Queued (record { address = a; bytes = take len (io.message_mem base) }) io io'
unfolding enqueue
enqueue-Queued a base len io room =
    let index = io.clients_io.tx_length in
    let tx = io.clients_io.tx in
    let free : ltb index tx.capacity ≡ true = lt→ltb index tx.capacity room in
    let start : zero + index ≡ index = omega arith in
    let next : index + 1 ≡ suc index = omega arith in
    (
      record io {
        clients_io = record (io.clients_io) {
          tx_length = suc index;
          tx = write_message index a base len tx;
        };
      },
      rw free refl,
      record {
        last =
            ap (messages_from (write_message index a base len tx) io.message_mem 0) (sym next)
            ∙ messages_from-add (write_message index a base len tx) io.message_mem 0 index 1
            ∙ rw
                (
                  messages_from-below tx io.message_mem index a base len 0 index (omega arith),
                  start,
                  messages_from-at tx io.message_mem index a base len,
                )
                refl;
        grown = refl;
        kept = record { memory = refl; peers = refl; clients = refl; out = refl; capacity = refl };
      },
    )

-- On a started thread with room in the vectors, a send queues one more datagram, the packet's bytes in
-- memory with the address of the session's client, behind those that are queued; and it counts the
-- packet in the thread's entry as sent.
pub start_send-Queued :
    {tls : Tls} (i : ℕ) (session : Session) (p : Packet) (st : St)
    → IsStarted i (threads st) tls
    → st.world.clients_io.tx_length < st.world.clients_io.tx.capacity
    → (io : IoWorker) × (start_send tls session p st
        ≡ ok (counted i (count_out p) (record st { world = io })))
      × Queued
          (record {
            address = session.client_endpoint;
            bytes = take p.length (st.world.message_mem p.address);
          })
          st.world
          io
unfolding start_send
start_send-Queued i session p st s room =
    let (io, run, q) = enqueue-Queued session.client_endpoint p.address p.length st.world room in
    (io, rw (run, update_this_thread-counted i (count_out p) (record st { world = io }) s) refl, q)
