-- ===== src/Crew/Rounds.antt =====
-- app/benchmark.c, `benchmark_run_kernel`: one call of `rsched_host_yield` after another, with a
-- requeue behind each.
use mdb.Base.{ℕ, ◌+◌, ◌^◌, ◌<◌, ◌≡◌, refl, ap, ◌∙◌, ap₂, Bool}
use mdb.Claim.Invariant.{times}
use mdb.Crew.{
  Crew, Step, worker_pops, worker_takes, worker_empty, worker_runs, worker_moves, host_enters,
  host_refuses, host_sends, send_moves, host_sent, all_sent, host_pops, host_runs, host_empty,
  host_asks, read_moves, is_waiting, is_down, is_other, all_waiting, returned, requeue, Reach,
  start, later,
}
use mdb.Crew.Done.{host_yield_done, host_yield-success}
use mdb.Sched.{Status, success}

-- How many rounds a step ends, and how often the task of an index was run in them.
abbrev pub ends : {weak : Bool} {n len : ℕ} {s t : Crew} → Step weak n len s t → ℕ
ends (requeue _) = 1
ends _ = 0

abbrev pub runs_ended : {weak : Bool} {n len : ℕ} {s t : Crew} → ℕ → Step weak n len s t → ℕ
runs_ended {s = s} j (requeue _) = times j s.ran
runs_ended j _ = 0

-- The rounds so far, and the runs of a task in them.
unfoldable pub rounds : {weak : Bool} {n len : ℕ} {s : Crew} → Reach weak n len s → ℕ
rounds (start _ _ _ _) = 0
rounds (later r st) = rounds r + ends st

unfoldable pub runs : {weak : Bool} {n len : ℕ} {s : Crew} → ℕ → Reach weak n len s → ℕ
runs j (start _ _ _ _) = 0
runs j (later r st) = runs j r + runs_ended j st

once_each :
    {weak : Bool} {n len : ℕ} {s t : Crew}
    → len + 1 < 2 ^ 32
    → Reach weak n len s
    → (st : Step weak n len s t) (j : ℕ) → j < len
    → runs_ended j st ≡ ends st
once_each small r (worker_pops _ _ _ _ _) j lt = refl
once_each small r (worker_takes _ _ _ _ _) j lt = refl
once_each small r (worker_empty _ _ _ _ _) j lt = refl
once_each small r (worker_runs _ _ _ _ _) j lt = refl
once_each small r (worker_moves _ _ _ _ _) j lt = refl
once_each small r (host_enters _ _) j lt = refl
once_each small r (host_refuses _ _) j lt = refl
once_each small r (host_sends _ _ _) j lt = refl
once_each small r (send_moves _ _ _ _ _) j lt = refl
once_each small r (host_sent _ _ _ _) j lt = refl
once_each small r (all_sent _) j lt = refl
once_each small r (host_pops _ _ _) j lt = refl
once_each small r (host_runs _ _) j lt = refl
once_each small r (host_empty _ _) j lt = refl
once_each small r (host_asks _ _ _) j lt = refl
once_each small r (read_moves _ _ _ _ _ _) j lt = refl
once_each small r (is_waiting _ _ _ _) j lt = refl
once_each small r (is_down _ _ _ _) j lt = refl
once_each small r (is_other _ _ _ _ _ _) j lt = refl
once_each small r (all_waiting _) j lt = refl
once_each small r (requeue {st} e) j lt =
    (host_yield_done small r (e ∙ ap returned (host_yield-success st small r e))).0 j lt

-- The rounds that have ended ran each task once.
rounds_each :
    {weak : Bool} {n len : ℕ} {s : Crew}
    → len + 1 < 2 ^ 32
    → (r : Reach weak n len s) (j : ℕ) → j < len
    → runs j r ≡ rounds r
unfolding rounds runs
rounds_each small (start _ _ _ _) j lt = refl
rounds_each small (later r st) j lt = ap₂ ◌+◌ (rounds_each small r j lt) (once_each small r st j lt)

-- For any number of workers and a queue of fewer than 2^32 - 1 tasks, with a function set and no
-- worker told to leave, however the host and the workers interleave, and though `rsched_requeue`
-- follows each call of `rsched_host_yield` whatever that returned: no call has returned a failure,
-- and in the rounds that have ended with a requeue each task of the queue has been run exactly as
-- often as there were rounds.
pub rounds-runs :
    {weak : Bool} {n len : ℕ} {s : Crew}
    → len + 1 < 2 ^ 32
    → (r : Reach weak n len s)
    → ((st : Status) → s.host ≡ returned st → st ≡ success)
      × ((j : ℕ) → j < len → runs j r ≡ rounds r)
rounds-runs small r = (λ st e. host_yield-success st small r e, rounds_each small r)
