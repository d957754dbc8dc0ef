-- ===== src/Sched.antt =====
-- sched/rsched.c, and what sched/rsched_worker.c does for it when a worker is set up or given back,
-- without the times that profiling keeps.
-- What the workers answer is a parameter: whether the thread of each starts, and the states that
-- `rsched_get_worker_state` reads of it, one after another.
pub mod Wait
pub mod Balance
pub mod Create
pub mod Held
pub mod Ends
pub mod Yield
pub mod Affinity
use mdb.Base.{
  ℕ, zero, suc, ◌+◌, ◌%◌, ◌^◌, ◌≡◌, Bool, true, false, Option, none, some, List, [], ◌∷◌, ◌++◌,
  ◌==◌, if◌then◌else◌, Outcome, done, timeout, ◌>>=◌, sub32, map,
}
use mdb.Queue.{Task}
use mdb.Worker.{st_waiting, st_down, sig_start, sig_quit}

pub data Status : Type 0 where
  success fail : Status

-- What is taken and given back: memory, the statistics with their histograms, the queue, a lock or a
-- thread;
-- those of a worker have its number.
pub data Resource : Type 0 where
  sched_memory worker_memory host_stats queue worker_stats lock thread : Resource

pub data Act : Type 0 where
  take : Resource → ℕ → Act
  give : Resource → ℕ → Act
  send : (sig worker : ℕ) → Act

pub record Env : Type 0 where
  pub starts : ℕ → Bool  -- `pthread_create` for the i-th worker succeeds
  pub states : ℕ → List ℕ  -- what is read of its state while the host waits for it
  -- What `rsched_worker_destroy` reads of its state, if it is not kept waiting for ever, and whether
  -- its thread then ends, so that `pthread_join` returns.
  pub state_at_exit : ℕ → Option ℕ
  pub ends : ℕ → Bool

-- `rsched_wait_worker`, on the states read.
unfoldable pub wait_worker : List ℕ → Outcome Status
wait_worker [] = timeout
wait_worker (state ∷ rest) =
    if state == st_waiting
    then done success
    else if state == st_down
    then done fail
    else wait_worker rest

-- The loop of `rsched_wait_workers`, with the rounds left.
unfoldable pub wait_workers : ℕ → ℕ → (ℕ → List ℕ) → Outcome Status
unfolding wait_worker
wait_workers zero i states = done success
wait_workers (suc rounds) i states = wait_worker (states i) >>= λ ret. elim ret [
  | fail ↦ done fail
  | success ↦ wait_workers rounds (i + 1) states
]

-- `rsched_worker_init`
unfoldable pub worker_init : Env → ℕ → Status × List Act
worker_init env i =
    if env.starts i
    then (success, take worker_stats i ∷ take lock i ∷ take thread i ∷ [])
    else (fail, take worker_stats i ∷ take lock i ∷ [])

-- The loop of `rsched_create`, with the rounds left.
unfoldable pub init_workers : ℕ → ℕ → Env → Status × List Act
unfolding worker_init
init_workers zero i env = (success, [])
init_workers (suc rounds) i env =
    let (ret, acts) = worker_init env i in
    let (ret', acts') = init_workers rounds (i + 1) env in
    elim ret [ fail ↦ (fail, acts) | success ↦ (ret', acts ++ acts') ]

-- `rsched_worker_destroy`, which may hang.
unfoldable pub worker_destroy : Env → ℕ → Outcome (List Act)
worker_destroy env i = elim (env.state_at_exit i) [
  | none ↦ timeout
  | some state ↦
      if env.ends i
      then done (
          (if state == st_down then [] else send sig_quit i ∷ [])
          ++ (give thread i ∷ give lock i ∷ give worker_stats i ∷ []))
      else timeout
]

unfoldable pub destroy_workers : ℕ → ℕ → Env → Outcome (List Act)
unfolding worker_destroy
destroy_workers zero i env = done []
destroy_workers (suc rounds) i env =
    worker_destroy env i >>= λ a. destroy_workers rounds (i + 1) env >>= λ b. done (a ++ b)

-- `rsched_shutdown`, of a scheduler with `n` workers.
unfoldable pub shutdown : ℕ → Env → Outcome (List Act)
unfolding destroy_workers
shutdown n env = destroy_workers n 0 env >>= λ acts.
    done (
      give host_stats 0
      ∷ (acts ++ (give queue 0 ∷ give worker_memory 0 ∷ give sched_memory 0 ∷ [])))

-- `rsched_init_structure`
unfoldable pub init_structure : List Act
init_structure = take sched_memory 0 ∷ take worker_memory 0 ∷ take host_stats 0 ∷ []

-- What `rsched_create` hands back: the number of workers of the scheduler, if there is one.
pub record Created : Type 0 where
  pub status : Status
  pub workers : Option ℕ
  pub acts : List Act

unfoldable pub shutdown_ret_fail : ℕ → Env → List Act → Outcome Created
unfolding shutdown
shutdown_ret_fail n env acts = shutdown n env >>= λ acts'.
    done (record { status = fail; workers = none; acts = acts ++ acts' })

-- `rsched_create` behind its loop, and the whole for a number of workers.
unfoldable pub sync_workers : Env → ℕ → List Act → Outcome Created
unfolding wait_workers shutdown_ret_fail
sync_workers env n acts = wait_workers n 0 env.states >>= λ ret. elim ret [
  | fail ↦ shutdown_ret_fail n env acts
  | success ↦ done (record { status = success; workers = some n; acts = acts })
]

unfoldable pub create_workers : Env → ℕ → Outcome Created
unfolding init_structure init_workers sync_workers shutdown_ret_fail
create_workers env n =
    let r = init_workers n 0 env in
    elim r.0 [
      | fail ↦ shutdown_ret_fail n env (init_structure ++ (take queue 0 ∷ r.1))
      | success ↦ sync_workers env n (init_structure ++ (take queue 0 ∷ r.1))
    ]

unfoldable pub create : Env → ℕ → Outcome Created
unfolding create_workers
create env threads = create_workers env (sub32 threads 1)

-- The function and the context of a worker, and the scheduler as `rsched_host_yield` uses it.
pub record UserCtx (S : Type 0) : Type 0 where
  pub user_fun : Option (Task → S → Outcome S)
  pub user_ctx : Option ℕ

pub record Sched (S : Type 0) : Type 0 where
  pub n_workers : ℕ
  pub user : UserCtx S
  pub worker : List (UserCtx S)
  pub task_count : ℕ

-- `rsched_run_workers`, with the rounds left.
unfoldable pub run_workers : ℕ → ℕ → List Act
run_workers zero i = []
run_workers (suc rounds) i = send sig_start i ∷ run_workers rounds (i + 1)

-- What `rsched_host_yield` hands back, and what it has done.
pub record Yielded (S : Type 0) : Type 0 where
  pub status : Status
  pub task_count : ℕ
  pub acts : List Act
  pub state : S

module _ {S : Type 0} where
  unfoldable pub set_user_context : Sched S → UserCtx S → Sched S
  set_user_context sched user = record sched { user = user; worker = map (λ w. user) sched.worker }

  -- The loop of the host, on the tasks that `rsched_queue_pop` hands it before `NULL`.
  unfoldable pub host_loop : (Task → S → Outcome S) → List Task → ℕ → S → Outcome (ℕ × S)
  host_loop proc_fun [] task_count s = done (task_count, s)
  host_loop proc_fun (t ∷ ts) task_count s =
      proc_fun t s >>= λ s'. host_loop proc_fun ts ((task_count + 1) % 2 ^ 64) s'

  unfoldable pub host_yield : Sched S → List Task → (ℕ → List ℕ) → S → Outcome (Yielded S)
  unfolding run_workers host_loop wait_workers
  host_yield sched tasks states s = elim sched.user.user_fun [
    | none ↦ done (record { status = fail; task_count = sched.task_count; acts = []; state = s })
    | some proc_fun ↦ host_loop proc_fun tasks sched.task_count s >>= λ r.
        wait_workers sched.n_workers 0 states >>= λ ret. done (record {
          status = ret;
          task_count = r.0;
          acts = run_workers sched.n_workers 0;
          state = r.1;
        })
  ]
