-- ===== src/Worker/Delivered.antt =====
-- What a worker does on its own with a signal that has reached it, and with the tasks of the queue.
use mdb.Base.{
  ◌==◌, ◌&&◌, if◌then◌else◌, ℕ, zero, suc, ◌+◌, ◌%◌, ◌^◌, ◌<◌, ◌≡◌, ◌≢◌, ◌∙◌, Bool, true, false,
  List, [], ◌∷◌, arith,
}
use mdb.Worker.{
  Shared, Pc, At, yield_exchange, loop_pop, gone, worker_step, sig_none, sig_start, sig_int,
  st_running, st_waiting, st_down,
}

-- Steps of the worker with the answers of the queue, of which only those at `loop_pop` are used.
unfoldable pub worker_steps : List Bool → Shared → Pc → At
worker_steps [] m p = (m, p)
worker_steps (task ∷ tasks) m p = let (m', p') = worker_step task m p in worker_steps tasks m' p'

abbrev four : List Bool
four = false ∷ false ∷ false ∷ false ∷ []

-- What is to come of a signal: START with a function set runs it, INT waits again, all else ends
-- the worker.
abbrev pub handled : Shared → At
handled m =
    if (m.signal == sig_start) && m.user_fun
    then (record m { signal = sig_none; state = st_running }, loop_pop)
    else if m.signal == sig_int
    then (record m { signal = sig_none; state = st_waiting }, yield_exchange)
    else (record m { signal = sig_none; state = st_down }, gone)

-- A waiting worker that finds a signal pending: START with a function makes it run, without one it
-- ends; INT makes it wait again; QUIT and any unknown signal end it. Each time the new state is
-- published and the signal cleared when it gets there.
signal_handled : (m : Shared) → m.signal ≢ sig_none → worker_steps four m yield_exchange ≡ handled m
unfolding worker_steps worker_step
signal_handled m n = ground arith

-- The answers for `k` tasks and then an empty queue.
abbrev answers : ℕ → List Bool
answers zero = false ∷ false ∷ false ∷ []
answers (suc k) = true ∷ true ∷ true ∷ true ∷ answers k

abbrev pub unsignalled : ℕ → ℕ → Bool → Shared
unsignalled st n f = record { signal = sig_none; state = st; task_count = n; user_fun = f }

-- A running worker that no signal reaches does all `k` tasks that the queue has for it, counts
-- them modulo 2^64, and waits again.
drains :
    (k st n : ℕ) (f : Bool)
    → n < 2 ^ 64
    → worker_steps (answers k) (unsignalled st n f) loop_pop
      ≡ (unsignalled st_waiting ((n + k) % 2 ^ 64) f, yield_exchange)
unfolding worker_steps worker_step
drains zero st n f h = let e : (n + 0) % 2 ^ 64 ≡ n = omega arith in rw e
drains (suc k) st n f h =
    let e : ((n + 1) % 2 ^ 64 + k) % 2 ^ 64 ≡ (n + suc k) % 2 ^ 64 = omega arith in
    drains k st ((n + 1) % 2 ^ 64) f (omega arith) ∙ rw e
