-- ===== src/Mmsg/Sending.antt =====
-- mmsg/relay.cpp: `io_run_client_send_frame`, for any answers of the kernel.
pub mod Laws
use urn.Prelude.{
  ℕ, zero, suc, ◌+◌, ◌-◌, Bool, true, false, List, [], ◌∷◌, ◌++◌, take, Outcome, ok, fault, abort,
  Datagram,
}
use urn.Mmsg.Vectors.{IoVectors, IoWorker}

-- What `sendmmsg` returns: how many messages were sent, or an error, which is EINTR or EWOULDBLOCK
-- if the flag is set.
pub data Answer : Type 0 where
  sent_messages : ℕ → Answer
  send_error : Bool → Answer

-- The datagrams of the messages from an offset on.
unfoldable pub messages_from : IoVectors → (ℕ → List ℕ) → ℕ → ℕ → List Datagram
messages_from tx mem offset zero = []
messages_from tx mem offset (suc n) =
    record {
      address = tx.addresses offset;
      bytes = take (tx.iov_len offset) (mem (tx.iov_base offset));
    }
    ∷ messages_from tx mem (suc offset) n

-- The kernel sends messages from `offset` on.
unfoldable pub transmit : ℕ → ℕ → IoWorker → IoWorker
unfolding messages_from
transmit offset n io = record io {
  sent = io.sent ++ messages_from io.clients_io.tx io.message_mem offset n;
}

-- The loop's variables, and the worker.
pub record SendLoop : Type 0 where
  pub remaining : ℕ
  pub offset : ℕ
  pub io : IoWorker

-- The loop over the answers that the kernel gives; it is still running if it has used them up and
-- messages remain.
unfoldable pub send_loop : List Answer → ℕ → ℕ → IoWorker → Outcome SendLoop
unfolding transmit
send_loop answers zero offset io = ok (record { remaining = 0; offset = offset; io = io })
send_loop [] (suc r) offset io = ok (record { remaining = suc r; offset = offset; io = io })
send_loop (sent_messages n ∷ answers) (suc r) offset io =
    send_loop answers (suc r - n) (offset + n) (transmit offset n io)
send_loop (send_error true ∷ answers) (suc r) offset io = send_loop answers (suc r) offset io
send_loop (send_error false ∷ answers) (suc r) offset io = fault abort

unfoldable pub io_run_client_send_frame : List Answer → IoWorker → Outcome SendLoop
unfolding send_loop
io_run_client_send_frame answers io = send_loop answers io.clients_io.tx_length 0 io
