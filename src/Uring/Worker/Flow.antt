-- ===== src/Uring/Worker/Flow.antt =====
-- A worker of uring/relay.cpp over its whole run: the datagrams that it has to send on, and the sends that
-- complete.
use urn.Prelude.{
  ℕ, ◌*◌, ◌≤◌, ◌≡◌, refl, ap, ◌∙◌, inl, inr, true, List, [], ◌∷◌, ◌++◌, arith, if◌then◌else◌,
  length, ok, Datagram, Address, Bool-cases,
}
use mathlib.Core.Path.{subst}
use mathlib.Core.List.{append_assoc, append-nil, perm_middle}
use mathlib.Core.List.Perm
use mathlib.Core.List.{Perm}
use urn.Relay.Statistics.{Doubles}
use urn.Relay.Logic.{Tls, Relay}
use urn.Relay.Logic.Counters.{IsStarted, threads}
use urn.Relay.Logic.Routing.{table_of}
use urn.Uring.Context.{
  Context, Session, RingEvent, RingEventType, peer_tx, timer, Sqe, listen_context_initialize,
  memory_per_packet,
}
use urn.Uring.Events.{iov_base}
use urn.Uring.Events.Owned.{count_kind, same_kind, Owned, IsArmed}
use urn.Uring.Events.Pool.{complete, complete-Owned, held-not-ring}
use urn.Uring.Events.Sends.{datagram_of, sends_in, sends, sends_in-append, sends_in-frame}
use urn.Uring.Worker.{St, on_cqe, start_receives, submit}
use urn.Uring.Worker.Invariant.{
  WorkerInv, Completion, received, receive_failed, sent, expired, Fits, res_of, kernel_writes,
  completed, receive_into,
}
use urn.Uring.Worker.Handled.{onward, Handled}
use urn.Uring.Worker.Outcomes.{on_cqe-Ends}
use urn.Uring.Worker.System.{submits, Step-WorkerInv}
use urn.Uring.Worker.Starting.{start_receives-Settled}

-- What the completion of an entry has put on the wire.
abbrev pub ended : Sqe → St → List Datagram
ended q st =
    if same_kind peer_tx (st.world.io_events q.event).kind
    then datagram_of (st.world.io_events q.event) st.world.messages_buffer ∷ []
    else []

-- A run of a worker: the datagrams that it had to send on, and those whose sends have completed, each
-- the latest first. The kernel completes the entries that it has accepted in any order; other threads
-- change the relay's members.
pub data Flow (d : Doubles) (tls : Tls) (st₀ : St)
    : List Datagram → List Datagram → St → Type 0 where
  begins : Flow d tls st₀ [] [] st₀
  accepts :
      {out fin : List Datagram} {st : St}
      → Flow d tls st₀ out fin st
      → Flow d tls st₀ out fin (record st { world = submit st.world })
  handles :
      {out fin : List Datagram} {st st' : St} (xs : List Sqe) (q : Sqe) (ys : List Sqe)
      (c : Completion)
      → Flow d tls st₀ out fin st
      → st.world.ring ≡ xs ++ (q ∷ ys)
      → st.world.unsubmitted ≤ length xs
      → Fits (st.world.io_events q.event).kind c
      → on_cqe d tls q.event (res_of c) (completed xs q ys c st) ≡ ok st'
      → Flow d tls st₀
          (onward (st.world.io_events q.event).kind c (table_of st) ++ out)
          (ended q st ++ fin)
          st'
  other_threads :
      {out fin : List Datagram} {st : St} (relay : Relay Session)
      → Flow d tls st₀ out fin st
      → length relay.per_thread_statistics ≡ threads st
      → Flow d tls st₀ out fin (record st { relay = relay })

ended-cons :
    (q : Sqe) (ys : List Sqe) (st : St)
    → let part = sends_in st.world.io_events st.world.messages_buffer in
      part (q ∷ ys) ≡ ended q st ++ part ys
ended-cons q ys st = elim (Bool-cases (same_kind peer_tx (st.world.io_events q.event).kind)) [
  | inl send ↦ rw send refl
  | inr other ↦ rw other refl
]

-- The sends before a completion.
sends-split :
    (xs : List Sqe) (q : Sqe) (ys : List Sqe) (st : St)
    → st.world.ring ≡ xs ++ (q ∷ ys)
    → let part = sends_in st.world.io_events st.world.messages_buffer in
      sends st.world ≡ part xs ++ (ended q st ++ part ys)
sends-split xs q ys st e =
    let part = sends_in st.world.io_events st.world.messages_buffer in
    ap part e
    ∙ sends_in-append st.world.io_events st.world.messages_buffer xs (q ∷ ys)
    ∙ ap (◌++◌ (part xs)) (ended-cons q ys st)

receives_no_timer :
    (kind : RingEventType) (bytes : List ℕ) (from : Address)
    → same_kind timer kind ≡ true
    → Fits kind (received bytes from)
    → ⊥
receives_no_timer timer bytes from t f = f
receives_no_timer _ bytes from t f = cc

-- The kernel writes to the region of the completed receive, and to no send.
kernel_writes-sends :
    (ev : ℕ) (kind : RingEventType) (c : Completion) (io : Context)
    → Owned io (ev ∷ [])
    → IsArmed (io.io_events ev) ev
    → (io.io_events ev).kind ≡ kind
    → Fits kind c
    → sends (kernel_writes ev c io) ≡ sends io
kernel_writes-sends ev kind (received bytes from) io o h k f =
    let own : iov_base (io.io_events ev).body ≡ ev * memory_per_packet = elim h.1 [
      | inl t ↦ absurd (receives_no_timer kind bytes from (rw k at t) f)
      | inr e ↦ e
    ] in
    sends_in-frame ev io.io_events (receive_into ev bytes from io).io_events io.messages_buffer
      (receive_into ev bytes from io).messages_buffer io.ring (held-not-ring o) o.armed
      (λ a ne. ground arith) (λ base ne. ground (arith, own))
kernel_writes-sends ev kind (receive_failed errno) io o h k f = refl
kernel_writes-sends ev kind (sent res) io o h k f = refl
kernel_writes-sends ev kind expired io o h k f = refl

perm_comm : (xs ys : List Datagram) → Perm (xs ++ ys) (ys ++ xs)
perm_comm [] ys = rw (append-nil ys) (Perm.refl ys)
perm_comm (x ∷ xs) ys = Perm.trans (Perm.cons x (perm_comm xs ys)) (Perm.symm (perm_middle ys xs))

-- A completed send leaves the ring, and new ones join it.
moves :
    (new before gone after fin out : List Datagram)
    → Perm ((before ++ (gone ++ after)) ++ fin) out
    → Perm ((new ++ (before ++ after)) ++ (gone ++ fin)) (new ++ out)
moves new before gone after fin out h = rw (append_assoc new (before ++ after) (gone ++ fin)) (
    Perm.append_left new (
      Perm.trans
        (rw
          (
            append_assoc before after (gone ++ fin),
            append_assoc before (gone ++ after) fin,
            append_assoc gone after fin,
          )
          (Perm.append_left before (
            rw (← append_assoc after gone fin, ← append_assoc gone after fin)
              (Perm.append_right fin (perm_comm after gone)))))
        h))

-- The state of a worker after such a run.
pub record Carries (tls : Tls) (i : ℕ) (out fin : List Datagram) (st : St) : Type 0 where
  pub inv : WorkerInv tls i st
  pub all_there : Perm (sends st.world ++ fin) out

module _ {tls : Tls} {i : ℕ} where
  -- A completion that the worker has handled.
  Handled-Carries :
      {out fin : List Datagram} {st st' : St} (xs : List Sqe) (q : Sqe) (ys : List Sqe)
      (c : Completion)
      → Carries tls i out fin st
      → st.world.ring ≡ xs ++ (q ∷ ys)
      → Fits (st.world.io_events q.event).kind c
      → Handled tls i (st.world.io_events q.event).kind c (completed xs q ys c st) st'
      → Carries tls i
          (onward (st.world.io_events q.event).kind c (table_of st) ++ out)
          (ended q st ++ fin)
          st'
  Handled-Carries {out} {fin} {st} {st'} xs q ys c h e f done =
      let part = sends_in st.world.io_events st.world.messages_buffer in
      let new = onward (st.world.io_events q.event).kind c (table_of st) in
      let (o, armed, _) = complete-Owned st.world xs q ys e h.inv.settled.owned in
      let after : sends st'.world ≡ new ++ (part xs ++ part ys) =
        done.sending
        ∙ ap (◌++◌ new) (
            kernel_writes-sends q.event (st.world.io_events q.event).kind c
              (complete xs ys st.world) o armed refl f
            ∙ sends_in-append st.world.io_events st.world.messages_buffer xs ys) in
      record {
        inv = done.inv;
        all_there = rw after (
            moves new (part xs) (ended q st) (part ys) fin out
              (subst (λ ds. Perm (ds ++ fin) out) (sends-split xs q ys st e) h.all_there));
      }

  Flow-keeps :
      {d : Doubles} {st₀ st : St} {out fin : List Datagram}
      → Carries tls i [] [] st₀
      → Flow d tls st₀ out fin st
      → Carries tls i out fin st
  unfolding submit
  Flow-keeps h begins = h
  Flow-keeps {d} h (accepts {out} {fin} {st} r) =
      let k = Flow-keeps h r in
      record { inv = Step-WorkerInv {d = d} (submits refl) k.inv; all_there = k.all_there }
  Flow-keeps {d} h (handles {st} {st'} xs q ys c r e s f run) =
      let k = Flow-keeps h r in
      elim (on_cqe-Ends d st xs q ys c k.inv e s f) [
        | inl (st₁, run₁, done) ↦
            let same : st₁ ≡ st' = ground arith in
            rw (← same) (Handled-Carries xs q ys c k e f done)
        | inr (bad, _) ↦ absurd (ground (arith, bad))
      ]
  Flow-keeps h (other_threads relay r same) =
      let k = Flow-keeps h r in
      record {
        inv = record { started = rw same k.inv.started; settled = k.inv.settled };
        all_there = k.all_there;
      }

no_sends :
    (ev : ℕ → RingEvent) (memory : ℕ → List ℕ) (qs : List Sqe)
    → count_kind peer_tx ev qs ≡ 0
    → sends_in ev memory qs ≡ []
no_sends ev memory [] h = refl
no_sends ev memory (q ∷ qs) h = ground (arith, no_sends ev memory qs)

-- A worker of any index, from its start through any run in which the kernel completes the entries of the
-- ring in any order, and other threads change the relay's members: the sends in the ring and those
-- that have completed are, up to their order, the datagrams of the peers that named a session when they came, each
-- to the address of the session's client, with the bytes received: none is lost, duplicated or
-- overwritten while it is in the ring.
pub Flow-Carries :
    (d : Doubles) (tls : Tls) (i thread_index : ℕ) (r : Relay Session) (io : Context)
    (out fin : List Datagram) (st : St)
    → IsStarted i (length r.per_thread_statistics) tls
    → start_receives (listen_context_initialize thread_index) ≡ ok io
    → Flow d tls (record { relay = r; world = io }) out fin st
    → Carries tls i out fin st
Flow-Carries d tls i thread_index r io out fin st s run flow =
    let (io', run', settled, _, no_send) = start_receives-Settled thread_index in
    let same : io' ≡ io = ground (arith, run, run') in
    Flow-keeps
      (record {
        inv = record { started = s; settled = rw same at settled };
        all_there =
            rw (no_sends io.io_events io.messages_buffer io.ring (rw same at no_send)) Perm.nil;
      })
      flow
