-- ===== src/Worker.antt =====
-- sched/rsched_worker.h and rsched_worker.c: one worker thread and the host thread that signals
-- it, an atomic access at a time. An `int` is its bit pattern.
pub mod System
pub mod Invariant
pub mod Serving
pub mod Lost
pub mod Delivered
use mdb.Base.{ℕ, ◌+◌, ◌%◌, ◌^◌, Bool, true, false, if◌then◌else◌, ◌==◌, ◌||◌}

abbrev pub st_running : ℕ
st_running = 1

abbrev pub st_waiting : ℕ
st_waiting = 2

abbrev pub st_down : ℕ
st_down = 0xffff_ffff

abbrev pub sig_none : ℕ
sig_none = 0

abbrev pub sig_start : ℕ
sig_start = 1

abbrev pub sig_int : ℕ
sig_int = 3

abbrev pub sig_quit : ℕ
sig_quit = 4

abbrev pub sig_locked : ℕ
sig_locked = 0xffff_ffff

-- The fields of `struct rsched_worker` that both threads read. `user_fun` says whether the pointer
-- is set.
pub record Shared : Type 0 where
  pub signal : ℕ
  pub state : ℕ
  pub task_count : ℕ
  pub user_fun : Bool

-- Where the worker stands in `rsched_worker`, `rsched_worker_loop` and `rsched_worker_yield`.
pub data Pc : Type 0 where
  yield_store : Pc  -- before the state becomes waiting
  yield_exchange : Pc  -- before the exchange in `rsched_worker_yield`
  yield_unlock : Pc  -- there, with no signal received
  handle : (sig : ℕ) → Pc  -- `sig_handle`
  run_store : Pc  -- before the state becomes running
  run_unlock : Pc
  loop_pop : Pc  -- before `rsched_queue_pop`
  loop_empty : Pc  -- it returned `NULL`
  loop_task : Pc  -- it returned a task
  loop_exchange : Pc  -- before the exchange behind the task
  loop_unlock : Pc
  int_unlock : Pc
  exit_store : Pc  -- `worker_exit`
  exit_unlock : Pc
  gone : Pc

abbrev pub At : Type 0
At = Shared × Pc

-- The branches of `sig_handle`.
unfoldable pub handle_sig : Shared → ℕ → At
handle_sig m sig =
    if sig == sig_start
    then (if m.user_fun then (m, run_store) else (m, exit_store))
    else if sig == sig_quit
    then (m, exit_store)
    else if sig == sig_int
    then (m, int_unlock)
    else (m, exit_store)

-- One step of the worker. `task` is what the queue answers at `loop_pop`.
unfoldable pub worker_step : Bool → Shared → Pc → At
unfolding handle_sig
worker_step task m yield_store = (record m { state = st_waiting }, yield_exchange)
worker_step task m yield_exchange = (
  record m { signal = sig_locked },
  if m.signal == sig_none then yield_unlock else handle m.signal,
)
worker_step task m yield_unlock = (record m { signal = sig_none }, yield_exchange)
worker_step task m (handle sig) = handle_sig m sig
worker_step task m run_store = (record m { state = st_running }, run_unlock)
worker_step task m run_unlock = (record m { signal = sig_none }, loop_pop)
worker_step task m loop_pop = (m, if task then loop_task else loop_empty)
worker_step task m loop_empty = (record m { signal = sig_none }, yield_store)
worker_step task m loop_task =
    (record m { task_count = (m.task_count + 1) % 2 ^ 64 }, loop_exchange)
worker_step task m loop_exchange = (
  record m { signal = sig_locked },
  if m.signal == sig_none || m.signal == sig_start then loop_unlock else handle m.signal,
)
worker_step task m loop_unlock = (record m { signal = sig_none }, loop_pop)
worker_step task m int_unlock = (record m { signal = sig_none }, yield_store)
worker_step task m exit_store = (record m { state = st_down }, exit_unlock)
worker_step task m exit_unlock = (record m { signal = sig_none }, gone)
worker_step task m gone = (m, gone)

-- Where the host stands: in `rsched_send_worker_sig`, with its local `esig`, or in
-- `rsched_get_worker_state`.
pub data HostPc : Type 0 where
  idle : HostPc
  sending : (esig sig : ℕ) → HostPc
  reading : HostPc  -- before the load of the signal
  loading : HostPc  -- before the load of the state
  got : (state : ℕ) → HostPc

abbrev pub HostAt : Type 0
HostAt = Shared × HostPc

-- One step of the host inside a call. With `fails` a compare-exchange fails though the values
-- agree, as a weak one may.
unfoldable pub host_step : Bool → Shared → HostPc → HostAt
host_step fails m idle = (m, idle)
host_step fails m (sending esig sig) =
    if m.signal == esig
    then (if fails then (m, sending m.signal sig) else (record m { signal = sig }, idle))
    else (m, sending m.signal sig)
host_step fails m reading = (m, if m.signal == sig_none then loading else reading)
host_step fails m loading = (m, got m.state)
host_step fails m (got state) = (m, idle)
