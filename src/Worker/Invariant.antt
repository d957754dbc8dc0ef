-- ===== src/Worker/Invariant.antt =====
-- What the signals and states of a worker tell its host.
use mdb.Base.{ℕ, ◌≡◌, ◌≢◌, ◌⊎◌, refl, Bool, true, false, arith}
use mdb.Worker.{
  Shared, Pc, yield_store, yield_exchange, yield_unlock, handle, run_store, run_unlock, loop_pop,
  loop_empty, loop_task, loop_exchange, loop_unlock, int_unlock, exit_store, exit_unlock, gone,
  HostPc, idle, sending, reading, loading, got, worker_step, host_step, sig_none, sig_locked,
  st_waiting, st_down, st_running,
}
use mdb.Worker.System.{
  System, Step, worker_moves, host_moves, send, get_state, set_user_fun, Reach, start, later,
}

-- The worker has exchanged the signal for "locked" and not yet stored "none".
abbrev pub locks : Pc → Bool
locks yield_unlock = true
locks (handle _) = true
locks run_store = true
locks run_unlock = true
locks loop_unlock = true
locks int_unlock = true
locks exit_store = true
locks exit_unlock = true
locks _ = false

-- The worker is between its wait for a signal and its next exchange: it runs no task.
abbrev pub parked : Pc → Bool
parked yield_store = true
parked yield_exchange = true
parked yield_unlock = true
parked _ = false

-- The state that the worker has published at a place. (Before the first store it is 0.)
abbrev StateAt : ℕ → Pc → Type 0
StateAt st yield_exchange = st ≡ st_waiting
StateAt st yield_unlock = st ≡ st_waiting
StateAt st run_unlock = st ≡ st_running
StateAt st loop_pop = st ≡ st_running
StateAt st loop_empty = st ≡ st_running
StateAt st loop_task = st ≡ st_running
StateAt st loop_exchange = st ≡ st_running
StateAt st loop_unlock = st ≡ st_running
StateAt st exit_unlock = st ≡ st_down
StateAt st gone = st ≡ st_down
StateAt st _ = st ≢ st_down

abbrev pub SignalAt : ℕ → Pc → Type 0
SignalAt sig p = (locks p ≡ true → sig ≢ sig_none) × (locks p ≡ false → sig ≢ sig_locked)

-- No signal is pending, and none has been received that is still to be handled.
abbrev pub IsCalm : ℕ → Pc → Type 0
IsCalm sig p =
    ((locks p ≡ false) × (sig ≡ sig_none))
    ⊎ ((sig ≡ sig_locked) × ((p ≡ yield_unlock) ⊎ (p ≡ loop_unlock)))

abbrev pub HostAgrees : ℕ → Pc → HostPc → Type 0
HostAgrees sig p idle = Unit
HostAgrees sig p (sending esig s) = (s ≢ sig_none) × (s ≢ sig_locked)
HostAgrees sig p reading = Unit
HostAgrees sig p loading = IsCalm sig p
HostAgrees sig p (got st) =
    IsCalm sig p × (st ≡ st_waiting → parked p ≡ true) × (st ≡ st_down → p ≡ gone)

pub record Inv (s : System) : Type 0 where
  pub state_at : StateAt s.mem.state s.worker
  pub signal_at : SignalAt s.mem.signal s.worker
  pub host_at : HostAgrees s.mem.signal s.worker s.host

worker-state :
    (task : Bool) (m : Shared) (p : Pc)
    → StateAt m.state p
    → let (m', p') = worker_step task m p in StateAt m'.state p'
unfolding worker_step
worker-state task m yield_store h = refl
worker-state task m p h = ground arith

worker-signal :
    (task : Bool) (m : Shared) (p : Pc)
    → SignalAt m.signal p
    → let (m', p') = worker_step task m p in SignalAt m'.signal p'
unfolding worker_step
worker-signal task m yield_store h = ground arith
worker-signal task m p h = ground arith

worker-IsCalm :
    (task : Bool) (m : Shared) (p : Pc)
    → IsCalm m.signal p
    → let (m', p') = worker_step task m p in IsCalm m'.signal p'
unfolding worker_step
worker-IsCalm task m yield_store h = ground arith
worker-IsCalm task m p h = ground arith

worker-parked :
    (task : Bool) (m : Shared) (p : Pc)
    → IsCalm m.signal p
    → parked p ≡ true
    → parked (worker_step task m p).1 ≡ true
unfolding worker_step
worker-parked task m yield_store h k = ground arith
worker-parked task m p h k = ground arith

worker-gone : (task : Bool) (m : Shared) (p : Pc) → p ≡ gone → (worker_step task m p).1 ≡ gone
unfolding worker_step
worker-gone task m yield_store h = cc
worker-gone task m p h = ground arith

worker-host :
    (task : Bool) (m : Shared) (p : Pc) (h : HostPc)
    → HostAgrees m.signal p h
    → let (m', p') = worker_step task m p in HostAgrees m'.signal p' h
worker-host task m p idle a = tt
worker-host task m p (sending esig sig) a = a
worker-host task m p reading a = tt
worker-host task m p loading a = worker-IsCalm task m p a
worker-host task m p (got st) a = (
  worker-IsCalm task m p a.0,
  λ e. worker-parked task m p a.0 (a.1 e),
  λ e. worker-gone task m p (a.2 e),
)

-- What the host knows once it has found no signal, and once it has read the state.
unlocked-IsCalm : (sig : ℕ) (p : Pc) → SignalAt sig p → sig ≡ sig_none → IsCalm sig p
unlocked-IsCalm sig p s e = ground (arith, s.0, s.1)

calm-parked :
    (sig st : ℕ) (p : Pc) → IsCalm sig p → StateAt st p → st ≡ st_waiting → parked p ≡ true
calm-parked sig st yield_store c s e = refl
calm-parked sig st p c s e = ground arith

calm-gone : (sig st : ℕ) (p : Pc) → IsCalm sig p → StateAt st p → st ≡ st_down → p ≡ gone
calm-gone sig st yield_store c s e = absurd (s e)
calm-gone sig st p c s e = ground arith

record HostKeeps (m m' : Shared) (p : Pc) (h : HostPc) : Type 0 where
  state : m'.state ≡ m.state
  signal : SignalAt m'.signal p
  agrees : HostAgrees m'.signal p h

host_keeps :
    (fails : Bool) (m : Shared) (p : Pc) (h : HostPc)
    → StateAt m.state p
    → SignalAt m.signal p
    → HostAgrees m.signal p h
    → let (m', h') = host_step fails m h in HostKeeps m m' p h'
unfolding host_step
host_keeps fails m p idle st sg a = record { state = refl; signal = sg; agrees = tt }
host_keeps fails m p (sending esig sig) st sg a = ground arith
host_keeps fails m p reading st sg a = ground (arith, unlocked-IsCalm m.signal p)
host_keeps fails m p loading st sg a = record {
  state = refl;
  signal = sg;
  agrees = (a, calm-parked m.signal m.state p a st, calm-gone m.signal m.state p a st);
}
host_keeps fails m p (got s) st sg a = record { state = refl; signal = sg; agrees = tt }

pub Step-Inv : {s t : System} → Step s t → Inv s → Inv t
Step-Inv {s} (worker_moves task e) inv = record {
  state_at = rw e at (worker-state task s.mem s.worker inv.state_at);
  signal_at = rw e at (worker-signal task s.mem s.worker inv.signal_at);
  host_at = rw e at (worker-host task s.mem s.worker s.host inv.host_at);
}
Step-Inv {s} (host_moves fails {m = m} {h = h} e) inv =
    let k : HostKeeps s.mem m s.worker h =
      rw e at (host_keeps fails s.mem s.worker s.host inv.state_at inv.signal_at inv.host_at) in
    record { state_at = rw k.state inv.state_at; signal_at = k.signal; host_at = k.agrees }
Step-Inv (send sig n l e) inv = record {
  state_at = inv.state_at;
  signal_at = inv.signal_at;
  host_at = (n, l);
}
Step-Inv (get_state e) inv = record {
  state_at = inv.state_at;
  signal_at = inv.signal_at;
  host_at = tt;
}
Step-Inv (set_user_fun b e) inv = record {
  state_at = inv.state_at;
  signal_at = inv.signal_at;
  host_at = inv.host_at;
}

pub Reach-Inv : {s : System} → Reach s → Inv s
Reach-Inv start = record { state_at = omega arith; signal_at = ground arith; host_at = tt }
Reach-Inv (later r st) = Step-Inv st (Reach-Inv r)

pub Inv-parked :
    {s : System}
    → Inv s
    → s.host ≡ got st_waiting
    → (parked s.worker ≡ true) × ((s.mem.signal ≡ sig_none) ⊎ (s.mem.signal ≡ sig_locked))
Inv-parked {s} inv e =
    let a : HostAgrees s.mem.signal s.worker (got st_waiting) = rw e at inv.host_at in
    (a.1 refl, ground (arith, a.0))

-- However the two threads interleave: once `rsched_get_worker_state` has returned "waiting", and
-- until the host's next call, the worker is at its wait for a signal with none pending, and runs no
-- task.
pub get_state-parked :
    {s : System}
    → Reach s
    → s.host ≡ got st_waiting
    → (parked s.worker ≡ true) × ((s.mem.signal ≡ sig_none) ⊎ (s.mem.signal ≡ sig_locked))
get_state-parked r e = Inv-parked (Reach-Inv r) e

-- However the two threads interleave: once `rsched_get_worker_state` has returned "down", the
-- worker has left its function.
pub get_state-gone : {s : System} → Reach s → s.host ≡ got st_down → s.worker ≡ gone
get_state-gone {s} r e =
    let a : HostAgrees s.mem.signal s.worker (got st_down) = rw e at ((Reach-Inv r).host_at) in
    a.2 refl
