-- ===== src/Worker/Lost.antt =====
-- `rsched_send_worker_sig` keeps in `esig` what a failed compare-exchange loaded, and its next try
-- expects that value in place of "no signal".
use mdb.Base.{ℕ, ◌≡◌, ◌≢◌, ◌⊎◌, inl, refl, Bool, false, List, [], ◌∷◌, ◌++◌, arith}
use mdb.Worker.{
  Shared, Pc, yield_exchange, yield_unlock, gone, HostPc, idle, sending, worker_step, host_step,
  sig_none, sig_locked, sig_quit, st_waiting,
}
use mdb.Worker.System.{System, Step, worker_moves, host_moves, send, Reach, start, later}

pub data Run (s : System) : System → Type 0 where
  stop : Run s s
  then_step : {t u : System} → Run s t → Step t u → Run s u

-- The signal whose sending ends with this step of the host.
abbrev pub finished : HostPc → HostPc → List ℕ
finished (sending esig sig) idle = sig ∷ []
finished _ _ = []

-- The signals whose sending has ended in a run, the latest first.
abbrev pub sent : {s t : System} → Run s t → List ℕ
sent stop = []
sent (then_step {t} r (host_moves fails {h = h} e)) = finished t.host h ++ sent r
sent (then_step r _) = sent r

-- A worker that waits, with no signal and no call of the host.
abbrev pub resting : ℕ → ℕ → Bool → System
resting st n f = record {
  mem = record { signal = sig_none; state = st; task_count = n; user_fun = f };
  worker = yield_exchange;
  host = idle;
}

abbrev pub pending : ℕ → Shared → Pc → System
pending sig m p = record { mem = record m { signal = sig }; worker = p; host = idle }

-- The two tries of the compare-exchange against a signal that stays.
first_try :
    (old sig : ℕ) (m : Shared) (p : Pc)
    → old ≢ sig_none
    → host_step false (pending old m p).mem (sending sig_none sig)
      ≡ ((pending old m p).mem, sending old sig)
unfolding host_step
first_try old sig m p o = ground arith

second_try :
    (old sig : ℕ) (m : Shared) (p : Pc)
    → host_step false (pending old m p).mem (sending old sig) ≡ ((pending sig m p).mem, idle)
unfolding host_step
second_try old sig m p = ground arith

-- A pending signal does not hold the sender up: with the worker standing still, the second try of
-- `rsched_send_worker_sig` replaces whatever signal was pending, and the call returns.
pub send_overwrites :
    (old sig : ℕ) (m : Shared) (p : Pc)
    → old ≢ sig_none
    → sig ≢ sig_none
    → sig ≢ sig_locked
    → (r : Run (pending old m p) (pending sig m p)) × (sent r ≡ sig ∷ [])
send_overwrites old sig m p o n l = (
  then_step
      (then_step (then_step stop (send sig n l refl)) (host_moves false (first_try old sig m p o)))
      (host_moves false (second_try old sig m p)),
  refl,
)

-- The same while the worker looks for a signal: the call returns, and the worker's next store
-- wipes the signal out, so that the state is the one before the call.
pub send_lost :
    (sig st n : ℕ) (f : Bool)
    → sig ≢ sig_none
    → sig ≢ sig_locked
    → (r : Run (resting st n f) (resting st n f)) × (sent r ≡ sig ∷ [])
unfolding worker_step
send_lost sig st n f p l =
    let m : Shared = (resting st n f).mem in
    (
      then_step
          (then_step
            (then_step
              (then_step
                (then_step stop (
                  worker_moves false {m = record m { signal = sig_locked }} {p = yield_unlock}
                    refl))
                (send sig p l refl))
              (host_moves false (first_try sig_locked sig m yield_unlock (omega arith))))
            (host_moves false (second_try sig_locked sig m yield_unlock)))
          (worker_moves false {m = m} {p = yield_exchange} refl),
      refl,
    )

-- Steps of the worker alone, as while the host waits in `pthread_join`.
pub data Alone : System → System → Type 0 where
  rest : {s : System} → Alone s s
  on :
      {s t : System} (task : Bool) {m : Shared} {p : Pc}
      → Alone s t
      → worker_step task t.mem t.worker ≡ (m, p)
      → Alone s (record t { mem = m; worker = p })

-- The worker turns in its waiting loop: no signal, or its own lock.
record Waits (s : System) : Type 0 where
  place : ((s.worker ≡ yield_exchange) × (s.mem.signal ≡ sig_none)) ⊎ (s.worker ≡ yield_unlock)

Waits-step :
    (task : Bool) (m : Shared) (p : Pc) (h : HostPc)
    → Waits (record { mem = m; worker = p; host = h })
    → let (m', p') = worker_step task m p in Waits (record { mem = m'; worker = p'; host = h })
unfolding worker_step
Waits-step task m yield_exchange h w = ground arith
Waits-step task m p h w = ground arith

Alone-Waits : {s t : System} → Alone s t → Waits s → Waits t
Alone-Waits rest w = w
Alone-Waits (on {t = t} task r e) w =
    rw e at (Waits-step task t.mem t.worker t.host (Alone-Waits r w))

Waits→ne-gone : (s : System) → Waits s → s.worker ≢ gone
Waits→ne-gone s w = ground arith

-- A worker at rest is reachable.
resting_reachable : Reach (resting st_waiting 0 false)
unfolding worker_step
resting_reachable = later start (worker_moves false refl)

-- `rsched_worker_destroy` can hang: from a worker at rest there is a run in which the sending of
-- `RS_SIG_QUIT` ends, and after which the worker, however long it runs on, never leaves its
-- function, which `pthread_join` waits for.
pub quit_lost :
    (st n : ℕ) (f : Bool) {u : System}
    → Alone (resting st n f) u
    → (r : Run (resting st n f) (resting st n f)) × (sent r ≡ sig_quit ∷ []) × (u.worker ≢ gone)
quit_lost st n f {u} r =
    let lost = send_lost sig_quit st n f (omega arith) (omega arith) in
    (lost.0, lost.1, Waits→ne-gone u (Alone-Waits r (record { place = inl (refl, refl) })))
