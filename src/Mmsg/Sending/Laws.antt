-- ===== src/Mmsg/Sending/Laws.antt =====
-- mmsg/relay.cpp: `io_run_client_send_frame` sends what was queued, once and in order.
use urn.Prelude.{
  ℕ, zero, suc, ◌+◌, ◌-◌, ◌≤◌, ◌≡◌, refl, sym, ap, ◌∙◌, true, false, List, [], ◌∷◌, ◌++◌, ok,
  Outcome, arith,
}
use mathlib.Core.Path.{subst}
use mathlib.Core.List.{append_assoc, append-nil}
use urn.Mmsg.Vectors.{IoVectors, IoWorker}
use urn.Mmsg.Sending.{
  Answer, sent_messages, send_error, messages_from, transmit, SendLoop, send_loop,
  io_run_client_send_frame,
}

-- `sendmmsg` sends at most as many messages as it is given.
abbrev pub IsWithin : List Answer → ℕ → Type 0
IsWithin [] r = Unit {0}
IsWithin (sent_messages n ∷ answers) r = (n ≤ r) × IsWithin answers (r - n)
IsWithin (send_error again ∷ answers) r = IsWithin answers r

-- How many of the answers are of at least one message.
abbrev pub productive : List Answer → ℕ
productive [] = 0
productive (sent_messages zero ∷ answers) = productive answers
productive (sent_messages (suc n) ∷ answers) = suc (productive answers)
productive (send_error again ∷ answers) = productive answers

-- No answer is an error other than EINTR and EWOULDBLOCK.
abbrev pub IsMild : List Answer → Type 0
IsMild [] = Unit {0}
IsMild (sent_messages n ∷ answers) = IsMild answers
IsMild (send_error again ∷ answers) = (again ≡ true) × IsMild answers

pub messages_from-add :
    (tx : IoVectors) (mem : ℕ → List ℕ) (o n m : ℕ)
    → messages_from tx mem o (n + m) ≡ messages_from tx mem o n ++ messages_from tx mem (o + n) m
unfolding messages_from
messages_from-add tx mem o zero m =
    let start : zero + m ≡ m = omega arith in
    let at : o + zero ≡ o = omega arith in rw (start, at) refl
messages_from-add tx mem o (suc n) m =
    let count : suc n + m ≡ suc (n + m) = omega arith in
    let at : o + suc n ≡ suc o + n = omega arith in
    rw (count, at, messages_from-add tx mem (suc o) n m) refl

transmit-add :
    (o n m : ℕ) (io : IoWorker) → transmit (o + n) m (transmit o n io) ≡ transmit o (n + m) io
unfolding transmit
transmit-add o n m io =
    let tx = io.clients_io.tx in
    let mem = io.message_mem in
    ap (λ out. record io { sent = out })
      (append_assoc io.sent (messages_from tx mem o n) (messages_from tx mem (o + n) m)
        ∙ ap (λ ds. io.sent ++ ds) (sym (messages_from-add tx mem o n m)))

-- The first `k` messages from `offset` on are sent, and no others.
pub record Progress (k r offset : ℕ) (io : IoWorker) (l : SendLoop) : Type 0 where
  pub left : l.remaining + k ≡ r
  pub next : l.offset ≡ offset + k
  pub out : l.io ≡ transmit offset k io

transmit-zero : (o : ℕ) (io : IoWorker) → transmit o 0 io ≡ io
unfolding transmit messages_from
transmit-zero o io = ap (λ out. record io { sent = out }) (append-nil io.sent)

still-Progress :
    (r o : ℕ) (io : IoWorker) (l : SendLoop)
    → ◌≡◌ {A = Outcome SendLoop} (ok (record { remaining = r; offset = o; io = io })) (ok l)
    → Progress 0 r o io l
still-Progress r o io l h =
    let e : record { remaining = r; offset = o; io = io } ≡ l = cc in
    subst (λ x. Progress 0 r o io x) e
      (record { left = omega arith; next = omega arith; out = sym (transmit-zero o io) })

send_loop-Progress :
    (answers : List Answer) (r o : ℕ) (io : IoWorker) (l : SendLoop)
    → IsWithin answers r
    → send_loop answers r o io ≡ ok l
    → (k : ℕ) × Progress k r o io l
unfolding send_loop
send_loop-Progress answers zero o io l w h = (0, still-Progress 0 o io l h)
send_loop-Progress [] (suc r) o io l w h = (0, still-Progress (suc r) o io l h)
send_loop-Progress (sent_messages n ∷ answers) (suc r) o io l w h =
    let (k, p) = send_loop-Progress answers (suc r - n) (o + n) (transmit o n io) l w.1 h in
    (
      n + k,
      record {
        left = omega (arith, p.left, w.0);
        next = omega (arith, p.next);
        out = p.out ∙ transmit-add o n k io;
      },
    )
send_loop-Progress (send_error true ∷ answers) (suc r) o io l w h =
    send_loop-Progress answers (suc r) o io l w h
send_loop-Progress (send_error false ∷ answers) (suc r) o io l w h = cc

send_loop-all :
    (answers : List Answer) (r o : ℕ) (io : IoWorker)
    → IsWithin answers r
    → IsMild answers
    → r ≤ productive answers
    → send_loop answers r o io ≡ ok (record { remaining = 0; offset = o + r; io = transmit o r io })
unfolding send_loop
send_loop-all answers zero o io w m p =
    let at : o + 0 ≡ o = omega arith in rw (at, transmit-zero o io) refl
send_loop-all [] (suc r) o io w m p = absurd (omega (arith, p))
send_loop-all (sent_messages zero ∷ answers) (suc r) o io w m p =
    let at : o + 0 ≡ o = omega arith in
    let left : suc r - 0 ≡ suc r = omega arith in
    let same : send_loop answers (suc r - 0) (o + 0) (transmit o 0 io)
        ≡ send_loop answers (suc r) o io =
      rw (at, left, transmit-zero o io) refl in
    same ∙ send_loop-all answers (suc r) o io (subst (IsWithin answers) left w.1) m p
send_loop-all (sent_messages (suc n) ∷ answers) (suc r) o io w m p =
    let rest = suc r - suc n in
    let at : (o + suc n) + rest ≡ o + suc r = omega (arith, w.0) in
    let count : suc n + rest ≡ suc r = omega (arith, w.0) in
    send_loop-all answers rest (o + suc n) (transmit o (suc n) io) w.1 m (omega (arith, p))
    ∙ rw (at, transmit-add o (suc n) rest io, count) refl
send_loop-all (send_error true ∷ answers) (suc r) o io w m p =
    send_loop-all answers (suc r) o io w m.1 p
send_loop-all (send_error false ∷ answers) (suc r) o io w m p = cc

-- Whatever the kernel answers, as long as it sends no more messages than it is given: if the frame's
-- loop has not aborted, it has sent the first `k` of the queued messages, each once and in their
-- order, has changed nothing else of the worker, and goes on with the message after them.
pub io_run_client_send_frame-Progress :
    (answers : List Answer) (io : IoWorker) (l : SendLoop)
    → IsWithin answers io.clients_io.tx_length
    → io_run_client_send_frame answers io ≡ ok l
    → (k : ℕ) × Progress k io.clients_io.tx_length 0 io l
unfolding io_run_client_send_frame
io_run_client_send_frame-Progress answers io l w h =
    send_loop-Progress answers io.clients_io.tx_length 0 io l w h

-- If no answer is an error other than EINTR and EWOULDBLOCK, and at least as many answers are of one
-- message or more as messages are queued, then the frame's loop ends, and all queued messages have
-- been sent.
pub io_run_client_send_frame-all :
    (answers : List Answer) (io : IoWorker)
    → IsWithin answers io.clients_io.tx_length
    → IsMild answers
    → io.clients_io.tx_length ≤ productive answers
    → io_run_client_send_frame answers io
      ≡ ok (record {
        remaining = 0;
        offset = io.clients_io.tx_length;
        io = transmit 0 io.clients_io.tx_length io;
      })
unfolding io_run_client_send_frame
io_run_client_send_frame-all answers io w m p =
    let n = io.clients_io.tx_length in
    let at : 0 + n ≡ n = omega arith in send_loop-all answers n 0 io w m p ∙ rw at refl
