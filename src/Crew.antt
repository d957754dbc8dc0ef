-- ===== src/Crew.antt =====
-- sched/rsched.c, `rsched_host_yield`, together with sched/rsched_worker.c and sched/rsched_queue.h:
-- the host and its workers on one queue, interleaved in any order, an atomic access at a time, from
-- one `rsched_requeue` to the next.
pub mod Held
pub mod Queued
pub mod Invariant
pub mod Moves
pub mod Kept
pub mod Done
pub mod Rounds
use mdb.Base.{ℕ, ◌+◌, ◌<◌, ◌≡◌, ◌≢◌, Bool, true, false, List, [], ◌∷◌}
use mdb.Claim
use mdb.Claim.{update}
use mdb.Worker
use mdb.Worker.{Pc, loop_pop, loop_task, sending, reading, got, worker_step, host_step}
use mdb.Worker.Invariant.{parked}
use mdb.Worker.Serving.{IsServing}
use mdb.Worker.System
use mdb.Worker.System.{System}
use mdb.Sched.{Status, success, fail}

-- Where the host stands. While it sends to a worker, or reads its state, its place in that call is
-- with the worker.
pub data HostPc : Type 0 where
  ready : HostPc  -- outside of `rsched_host_yield`
  starting : (i : ℕ) → HostPc  -- `rsched_run_workers`, before its i-th round
  sends : (i : ℕ) → HostPc  -- in `rsched_send_worker_sig`
  popping : HostPc  -- the loop that takes tasks
  waiting : (i : ℕ) → HostPc  -- `rsched_wait_workers`, before it reads the state of the i-th worker
  reads : (i : ℕ) → HostPc  -- in `rsched_get_worker_state`
  returned : Status → HostPc

-- The workers, the queue, where each thread stands in `rsched_queue_pop` (the host's place behind
-- those of the n workers), the indices whose tasks have been run, whether the host's `user_fun` is
-- set, and the host.
pub record Crew : Type 0 where
  pub workers : ℕ → System
  pub queue : Claim.Shared
  pub pops : ℕ → Claim.Pc
  pub ran : List ℕ
  pub user_fun : Bool
  pub host : HostPc

-- `rsched_queue_pop` has been called and has not returned.
abbrev pub in_pop : Claim.Pc → Bool
in_pop Claim.Pc.idle = true
in_pop (Claim.Pc.expects c) = true
in_pop _ = false

abbrev pub has_read : Worker.HostPc → Bool
has_read (Worker.HostPc.got st) = true
has_read _ = false

-- One step of one thread. A worker at `loop_pop` goes on when its pop has returned; a task counts
-- as run where `proc_fun` returns.
pub data Step (weak : Bool) (n len : ℕ) (s : Crew) : Crew → Type 0 where
  worker_pops :
      (i : ℕ) {m : Claim.Shared} {p : Claim.Pc}
      → i < n
      → (s.workers i).worker ≡ loop_pop
      → in_pop (s.pops i) ≡ true
      → Claim.Move weak len s.queue (s.pops i) m p
      → Step weak n len s (record s { queue = m; pops = update s.pops i p })
  worker_takes :
      (i : ℕ) {c : ℕ} {m : Worker.Shared} {p : Pc}
      → i < n
      → (s.workers i).worker ≡ loop_pop
      → s.pops i ≡ Claim.Pc.claimed c
      → worker_step true (s.workers i).mem (s.workers i).worker ≡ (m, p)
      → Step weak n len s
          (record s { workers = update s.workers i (record (s.workers i) { mem = m; worker = p }) })
  worker_empty :
      (i : ℕ) {m : Worker.Shared} {p : Pc}
      → i < n
      → (s.workers i).worker ≡ loop_pop
      → s.pops i ≡ Claim.Pc.empty
      → worker_step false (s.workers i).mem (s.workers i).worker ≡ (m, p)
      → Step weak n len s (record s {
        workers = update s.workers i (record (s.workers i) { mem = m; worker = p });
        pops = update s.pops i Claim.Pc.idle;
      })
  worker_runs :
      (i : ℕ) {c : ℕ} {m : Worker.Shared} {p : Pc}
      → i < n
      → (s.workers i).worker ≡ loop_task
      → s.pops i ≡ Claim.Pc.claimed c
      → worker_step false (s.workers i).mem (s.workers i).worker ≡ (m, p)
      → Step weak n len s (record s {
        workers = update s.workers i (record (s.workers i) { mem = m; worker = p });
        pops = update s.pops i Claim.Pc.idle;
        ran = c ∷ s.ran;
      })
  worker_moves :
      (i : ℕ) {m : Worker.Shared} {p : Pc}
      → i < n
      → (s.workers i).worker ≢ loop_pop
      → (s.workers i).worker ≢ loop_task
      → worker_step false (s.workers i).mem (s.workers i).worker ≡ (m, p)
      → Step weak n len s
          (record s { workers = update s.workers i (record (s.workers i) { mem = m; worker = p }) })
  host_enters :
      s.user_fun ≡ true → s.host ≡ ready → Step weak n len s (record s { host = starting 0 })
  host_refuses :
      s.user_fun ≡ false → s.host ≡ ready → Step weak n len s (record s { host = returned fail })
  host_sends :
      (i : ℕ)
      → i < n
      → s.host ≡ starting i
      → Step weak n len s (record s {
        workers =
            update s.workers i
              (record (s.workers i) { host = sending Worker.sig_none Worker.sig_start });
        host = sends i;
      })
  send_moves :
      (i : ℕ) (fails : Bool) {m : Worker.Shared} {h : Worker.HostPc}
      → i < n
      → s.host ≡ sends i
      → host_step fails (s.workers i).mem (s.workers i).host ≡ (m, h)
      → Step weak n len s
          (record s { workers = update s.workers i (record (s.workers i) { mem = m; host = h }) })
  host_sent :
      (i : ℕ)
      → i < n
      → s.host ≡ sends i
      → (s.workers i).host ≡ Worker.HostPc.idle
      → Step weak n len s (record s { host = starting (i + 1) })
  all_sent : s.host ≡ starting n → Step weak n len s (record s { host = popping })
  host_pops :
      {m : Claim.Shared} {p : Claim.Pc}
      → s.host ≡ popping
      → in_pop (s.pops n) ≡ true
      → Claim.Move weak len s.queue (s.pops n) m p
      → Step weak n len s (record s { queue = m; pops = update s.pops n p })
  host_runs :
      {c : ℕ}
      → s.host ≡ popping
      → s.pops n ≡ Claim.Pc.claimed c
      → Step weak n len s (record s { pops = update s.pops n Claim.Pc.idle; ran = c ∷ s.ran })
  host_empty :
      s.host ≡ popping
      → s.pops n ≡ Claim.Pc.empty
      → Step weak n len s (record s { pops = update s.pops n Claim.Pc.idle; host = waiting 0 })
  host_asks :
      (i : ℕ)
      → i < n
      → s.host ≡ waiting i
      → Step weak n len s (record s {
        workers = update s.workers i (record (s.workers i) { host = reading });
        host = reads i;
      })
  read_moves :
      (i : ℕ) (fails : Bool) {m : Worker.Shared} {h : Worker.HostPc}
      → i < n
      → s.host ≡ reads i
      → has_read (s.workers i).host ≡ false
      → host_step fails (s.workers i).mem (s.workers i).host ≡ (m, h)
      → Step weak n len s
          (record s { workers = update s.workers i (record (s.workers i) { mem = m; host = h }) })
  is_waiting :
      (i : ℕ)
      → i < n
      → s.host ≡ reads i
      → (s.workers i).host ≡ got Worker.st_waiting
      → Step weak n len s (record s { host = waiting (i + 1) })
  is_down :
      (i : ℕ)
      → i < n
      → s.host ≡ reads i
      → (s.workers i).host ≡ got Worker.st_down
      → Step weak n len s (record s { host = returned fail })
  is_other :
      (i : ℕ) {st : ℕ}
      → i < n
      → s.host ≡ reads i
      → (s.workers i).host ≡ got st
      → st ≢ Worker.st_waiting
      → st ≢ Worker.st_down
      → Step weak n len s (record s { host = waiting i })
  all_waiting : s.host ≡ waiting n → Step weak n len s (record s { host = returned success })
  requeue :
      {st : Status}
      → s.host ≡ returned st
      → Step weak n len s
          (record s { queue = record { counter = 0; taken = [] }; ran = []; host = ready })

-- The queue when it has just been filled, a function that is set, and workers that have started,
-- each in any state that it can be in at its wait for a signal while it has not been told to leave.
pub data Reach (weak : Bool) (n len : ℕ) : Crew → Type 0 where
  start :
      (workers : ℕ → System)
      → ((i : ℕ) → i < n → System.Reach (workers i))
      → ((i : ℕ) → i < n → parked (workers i).worker ≡ true)
      → ((i : ℕ) → i < n → IsServing (workers i))
      → Reach weak n len (record {
        workers = workers;
        queue = record { counter = 0; taken = [] };
        pops = λ _. Claim.Pc.idle;
        ran = [];
        user_fun = true;
        host = ready;
      })
  later : {s t : Crew} → Reach weak n len s → Step weak n len s t → Reach weak n len t
