-- ===== src/Mmsg/Startup/Ready.antt =====
-- mmsg/relay.cpp: what `run` has made when the workers start.
use urn.Prelude.{
  Option, none, Bool-cases, inl, inr, if◌then◌else◌, ◌==◌, ℕ, zero, suc, ◌+◌, ◌-◌, ◌*◌, ◌%◌, ◌<◌,
  ◌≤◌, ◌≡◌, refl, ap, ◌∙◌, Bool, true, List, [], ◌∷◌, some, ok, length, length-replicate, get_elem?,
  arith, ltb,
}
use Prim.Native.String.{String}
use urn.Relay.Statistics.{no_statistics}
use urn.Config.Argv.{Config, mmsg_config, uint16_mod}
use urn.Config.Accepted.{config-bounds}
use urn.Relay.Logic.{Relay, init, on_thread_start}
use urn.Latch.{countdown_latch}
use urn.Mmsg.Vectors.{io_worker_init}
use urn.Mmsg.Worker.{Session}
use urn.Sockets.{local_client_address, local_peer_address, Socket}
use urn.Mmsg.Startup.{
  Call, getaddrinfo, IoWorkerArgs, Start, Sockets, create_worker_args, start_workers,
  thread_count_of, run, begin_worker, start_timer, timerfd_create, timerfd_settime, ItimerSpec,
  timer_setting,
}
use urn.Mmsg.Startup.Binding.{
  created, all_ready, every_second, get-every_second, create_loop-created, bind_loop-ready,
}

-- The arguments of a worker among some.
abbrev pub args_of : ℕ → ℕ → IoWorkerArgs
args_of thread_count i = record {
  worker_index = i;
  client_socket = 2 * i;
  peer_socket = 2 * i + 1;
  latch = countdown_latch thread_count;
}

-- Its start, when all sockets are as they have to be.
abbrev pub start_of : ℕ → ℕ → Start
start_of thread_count i = record { args = args_of thread_count i; sockets = all_ready thread_count }

abbrev pub all_starts : ℕ → ℕ → ℕ → List Start
all_starts thread_count i zero = start_of thread_count 0 ∷ []
all_starts thread_count i (suc left) =
    start_of thread_count i ∷ all_starts thread_count (suc i) left

create_worker_args-of :
    (total i : ℕ) (s : Sockets)
    → s.client_sockets ≡ every_second 0 total
    → s.peer_sockets ≡ every_second 1 total
    → i < total
    → create_worker_args (countdown_latch total) s i ≡ ok (args_of total i)
create_worker_args-of total i s cs ps h =
    let client : get_elem? s.client_sockets i ≡ some (2 * i) =
      ap (λ xs. get_elem? xs i) cs ∙ get-every_second 0 total i h ∙ ap some (omega arith) in
    let peer : get_elem? s.peer_sockets i ≡ some (2 * i + 1) =
      ap (λ xs. get_elem? xs i) ps ∙ get-every_second 1 total i h ∙ ap some (omega arith) in
    rw (client, peer) refl

start_workers-all :
    (total i left : ℕ) (s : Sockets)
    → s.client_sockets ≡ every_second 0 total
    → s.peer_sockets ≡ every_second 1 total
    → s.sockets ≡ all_ready total
    → 0 < total
    → i + left ≡ total
    → start_workers (countdown_latch total) s i left ≡ ok (all_starts total i left)
unfolding start_workers
start_workers-all total i zero s cs ps ready some_threads all =
    rw (create_worker_args-of total 0 s cs ps some_threads, ready) refl
start_workers-all total i (suc left) s cs ps ready some_threads all =
    rw
      (
        create_worker_args-of total i s cs ps (omega (arith, all)),
        start_workers-all total (suc i) left s cs ps ready some_threads (omega (arith, all)),
        ready,
      )
      refl

length-all_starts : (n i left : ℕ) → length (all_starts n i left) ≡ suc left
length-all_starts n i zero = refl
length-all_starts n i (suc left) = ap suc (length-all_starts n (suc i) left)

-- Where every call of the operating system succeeds, `run` with at least one thread makes a
-- worker for each index below that number, 0 last on the main thread, with the latch for that
-- number and with two sockets that no other worker has; and at the start of each worker every
-- socket has its options and its filter and is bound to its address, and to that only.
pub run-ready :
    (succeeds : List Socket → Call → Bool) (n : ℕ)
    → ((sockets : List Socket) (call : Call) → succeeds sockets call ≡ true)
    → 1 ≤ n
    → run succeeds n ≡ ok (all_starts n 1 (n - 1))
unfolding run
run-ready succeeds n all_succeed some_threads =
    let count : thread_count_of n ≡ n = ground arith in
    let s : Sockets = record {
      client_sockets = every_second 0 n;
      peer_sockets = every_second 1 n;
      sockets = created n;
    } in
    rw
      (
        count,
        all_succeed [] (getaddrinfo local_client_address),
        all_succeed [] (getaddrinfo local_peer_address),
        create_loop-created succeeds all_succeed n
            (record { client_sockets = []; peer_sockets = []; sockets = [] }),
        bind_loop-ready succeeds all_succeed 0 n n s [] refl refl refl refl (omega arith),
        start_workers-all n 1 (n - 1) (record s { sockets = all_ready n }) refl refl refl
            (omega arith) (omega arith),
      )
      refl

-- The timer runs on the main worker only.
abbrev pub timer_of : ℕ → Option ItimerSpec
timer_of i = if i == 0 then some timer_setting else none

-- Every worker among some comes to its loop, as the thread of its index.
abbrev pub AllBegin : (List Socket → Call → Bool) → Relay Session → List Start → Type 0
AllBegin succeeds relay [] = Unit {0}
AllBegin succeeds relay (first ∷ rest) =
    (begin_worker succeeds first.sockets relay first.args
      ≡ ok (
        some first.args.worker_index,
        io_worker_init first.args.worker_index,
        timer_of first.args.worker_index,
      ))
    × AllBegin succeeds relay rest

-- Each latch waits for this many threads.
abbrev pub AllWaitFor : ℕ → List Start → Type 0
AllWaitFor n [] = Unit {0}
AllWaitFor n (first ∷ rest) = (first.args.latch ≡ countdown_latch n) × AllWaitFor n rest

all_starts-AllWaitFor : (n i left : ℕ) → AllWaitFor n (all_starts n i left)
all_starts-AllWaitFor n i zero = (refl, tt)
all_starts-AllWaitFor n i (suc left) = (refl, all_starts-AllWaitFor n (suc i) left)

module _ (succeeds : List Socket → Call → Bool)
    (all_succeed : (sockets : List Socket) (call : Call) → succeeds sockets call ≡ true) where
  start_timer-of :
      (i : ℕ) (sockets : List Socket) → start_timer succeeds i sockets ≡ ok (timer_of i)
  unfolding start_timer
  start_timer-of i sockets = elim (Bool-cases (i == 0)) [
    | inl main ↦ rw (main, all_succeed sockets (timerfd_settime timer_setting)) refl
    | inr other ↦ rw other refl
  ]

  pub begin_worker-known :
      (sockets : List Socket) (n total i : ℕ)
      → i < n
      → begin_worker succeeds sockets (init n) (args_of total i)
        ≡ ok (some i, io_worker_init i, timer_of i)
  unfolding begin_worker on_thread_start init
  begin_worker-known sockets n total i h =
      let known : ltb i (length (init {Session = Session} n).per_thread_statistics) ≡ true =
        ground (arith, length-replicate n no_statistics) in
      rw (all_succeed sockets timerfd_create, start_timer-of i sockets, known) refl

  all_starts-begin :
      (n i left : ℕ) → 0 < n → i + left ≡ n → AllBegin succeeds (init n) (all_starts n i left)
  all_starts-begin n i zero some_threads all =
      (begin_worker-known (all_ready n) n n 0 some_threads, tt)
  all_starts-begin n i (suc left) some_threads all = (
    begin_worker-known (all_ready n) n n i (omega (arith, all)),
    all_starts-begin n (suc i) left some_threads (omega (arith, all)),
  )

-- From every command line on which the constructor of `config` returns, where every call of the
-- operating system succeeds, `run` gives a list of workers each of which comes to its loop with
-- the entry of its own index in the relay's statistics, the main worker with the timer set and
-- the others without; there are as many as the configuration has threads, and the latch of each
-- counts exactly these.
pub mmsg_config-begin :
    (atoi : String → ℕ) (succeeds : List Socket → Call → Bool) (hardware : ℕ) (line : List String)
    (c : Config)
    → ((sockets : List Socket) (call : Call) → succeeds sockets call ≡ true)
    → mmsg_config atoi hardware line ≡ ok c
    → (workers : List Start) × (run succeeds c.threads ≡ ok workers)
      × AllBegin succeeds (init c.threads) workers
      × AllWaitFor (length workers) workers
      × (length workers ≡ c.threads)
mmsg_config-begin atoi succeeds hardware line c all_succeed parsed =
    let (some_threads, few) =
      config-bounds atoi (hardware % uint16_mod) line c (omega arith) parsed in
    let n = c.threads in
    let workers_count : length (all_starts n 1 (n - 1)) ≡ n =
      length-all_starts n 1 (n - 1) ∙ omega arith in
    (
      all_starts n 1 (n - 1),
      run-ready succeeds n all_succeed some_threads,
      all_starts-begin succeeds all_succeed n 1 (n - 1) (omega arith) (omega arith),
      rw workers_count (all_starts-AllWaitFor n 1 (n - 1)),
      workers_count,
    )
