-- ===== src/Sched/Affinity.antt =====
-- sched/rsched.c, `rsched_tune_thread_affinity`: each thread on a processor of its own. Whether
-- `pthread_setaffinity_np` succeeds for a processor is a parameter.
use mdb.Base.{
  ℕ, zero, suc, ◌+◌, ◌≡◌, Bool, List, [], ◌∷◌, ◌++◌, ◌&&◌, ltb, leb, ◌==◌, one_if, arith,
  if◌then◌else◌,
}
use mdb.Sched.{Status, success}

-- The host, or a worker by its number.
pub data Thread : Type 0 where
  host : Thread
  worker : (i : ℕ) → Thread

pub record Bound : Type 0 where
  pub thread : Thread
  pub cpu : ℕ

-- `bind_thread_to_cpu`
unfoldable pub bind_thread_to_cpu : (ℕ → Bool) → Thread → ℕ → List Bound
bind_thread_to_cpu works thread cpu =
    if works cpu then (record { thread = thread; cpu = cpu } ∷ []) else []

-- The loop over the workers, with the rounds left.
unfoldable pub bind_workers : (ℕ → Bool) → ℕ → ℕ → List Bound
unfolding bind_thread_to_cpu
bind_workers works zero i = []
bind_workers works (suc rounds) i =
    bind_thread_to_cpu works (worker i) (i + 1) ++ bind_workers works rounds (i + 1)

-- The status is a success whatever happened.
unfoldable pub tune_thread_affinity : (ℕ → Bool) → ℕ → Status × List Bound
unfolding bind_thread_to_cpu bind_workers
tune_thread_affinity works n_workers =
    (success, bind_thread_to_cpu works host 0 ++ bind_workers works n_workers 0)

-- How many threads are bound to a processor.
abbrev on_cpu : ℕ → List Bound → ℕ
on_cpu cpu [] = 0
on_cpu cpu (b ∷ bs) = one_if (b.cpu == cpu) + on_cpu cpu bs

workers-on_cpu :
    (works : ℕ → Bool) (rounds i cpu : ℕ)
    → on_cpu cpu (bind_workers works rounds i)
      ≡ one_if ((leb (i + 1) cpu && ltb cpu (i + 1 + rounds)) && works cpu)
unfolding bind_workers bind_thread_to_cpu
workers-on_cpu works zero i cpu = ground arith
workers-on_cpu works (suc rounds) i cpu = ground (arith, workers-on_cpu works rounds (i + 1) cpu)

-- For any number of workers: a processor gets one thread just if it is one of the first n + 1 and
-- the binding works there, and otherwise none.
tune_thread_affinity_lem :
    (works : ℕ → Bool) (n cpu : ℕ)
    → on_cpu cpu (tune_thread_affinity works n).1 ≡ one_if (ltb cpu (n + 1) && works cpu)
unfolding tune_thread_affinity bind_thread_to_cpu
tune_thread_affinity_lem works n cpu = ground (arith, workers-on_cpu works n 0 cpu)
