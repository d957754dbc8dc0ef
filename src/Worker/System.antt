-- ===== src/Worker/System.antt =====
-- A worker and its host, interleaved.
use mdb.Base.{ℕ, ◌≡◌, ◌≢◌, Bool, false}
use mdb.Worker.{
  Shared, Pc, yield_store, HostPc, idle, sending, reading, worker_step, host_step, sig_none,
  sig_locked,
}

pub record System : Type 0 where
  pub mem : Shared
  pub worker : Pc
  pub host : HostPc

-- The host sends no signal that stands for "none" or "locked", and gives the worker its function
-- between two calls (`update_workers_user_ctx`).
pub data Step (s : System) : System → Type 0 where
  worker_moves :
      (task : Bool) {m : Shared} {p : Pc}
      → worker_step task s.mem s.worker ≡ (m, p)
      → Step s (record s { mem = m; worker = p })
  host_moves :
      (fails : Bool) {m : Shared} {h : HostPc}
      → host_step fails s.mem s.host ≡ (m, h)
      → Step s (record s { mem = m; host = h })
  send :
      (sig : ℕ)
      → sig ≢ sig_none
      → sig ≢ sig_locked
      → s.host ≡ idle
      → Step s (record s { host = sending sig_none sig })
  get_state : s.host ≡ idle → Step s (record s { host = reading })
  set_user_fun :
      (b : Bool) → s.host ≡ idle → Step s (record s { mem = record (s.mem) { user_fun = b } })

-- As `calloc` and `rsched_worker_init` leave it when the thread starts.
abbrev pub start_system : System
start_system = record {
  mem = record { signal = 0; state = 0; task_count = 0; user_fun = false };
  worker = yield_store;
  host = idle;
}

pub data Reach : System → Type 0 where
  start : Reach start_system
  later : {s t : System} → Reach s → Step s t → Reach t
