-- ===== src/Examples/Host.antt =====
-- The host of sched/rsched.c with its workers.
use mdb.Base.{
  ℕ, zero, suc, ◌+◌, ◌<◌, ◌≡◌, refl, true, none, some, List, [], ◌∷◌, ◌++◌, ◌==◌, not, arith,
  Outcome, done, if◌then◌else◌,
}
use mdb.Queue.{Task}
use mdb.Worker.{st_running, st_waiting, st_down, sig_start}
use mdb.Sched
use mdb.Sched.{Act, Env, Created, Status, thread, lock}
use mdb.Sched.Wait.{Settles}
use mdb.Sched.Balance.{taken, given}
use mdb.Sched.Ends.{create-shutdown, create_joins_unstarted}
use mdb.Sched.Yield.{sent, host_yield_lem}

-- The first worker is seen running before it waits.
abbrev seen : ℕ → List ℕ
seen zero = st_running ∷ st_waiting ∷ []
seen (suc i) = st_waiting ∷ []

seen-Settles : (i : ℕ) → i < 2 → Settles st_waiting (seen i)
seen-Settles zero h =
    Settles.then_on (λ e. absurd (omega (arith, e))) (λ e. absurd (omega (arith, e))) Settles.now
seen-Settles (suc i) h = Settles.now

abbrev two_workers : Env
two_workers = record {
  starts = λ i. true;
  states = seen;
  state_at_exit = λ i. some st_waiting;
  ends = λ i. true;
}

-- The second of three threads does not start.
abbrev second_fails : Env
second_fails = record {
  starts = λ i. not (i == 1);
  states = seen;
  state_at_exit = λ i. some (if i == 1 then st_down else st_waiting);
  ends = λ i. true;
}

create-shutdown_example :
    (c : Created) × (Sched.create two_workers 3 ≡ done c)
    × (c.workers ≡ some 2)
    × (taken lock 1 c.acts ≡ 1)
    × ((acts : List Act) × (Sched.shutdown 2 two_workers ≡ done acts)
        × (given lock 1 (c.acts ++ acts) ≡ 1))
create-shutdown_example =
    create-shutdown two_workers 2 2 lock 1 (omega arith) (λ i h. refl) (λ i h. (_, refl, refl))
      (omega arith) (λ i h. seen-Settles i h) (λ h. absurd (omega arith))

below_one : (i : ℕ) → i < 1 → not (i == 1) ≡ true
below_one i h = ground arith

create_joins_unstarted_example :
    (c : Created) × (Sched.create second_fails 4 ≡ done c)
    × (c.workers ≡ none)
    × (taken thread 2 c.acts ≡ 0)
    × (given thread 2 c.acts ≡ 1)
create_joins_unstarted_example =
    create_joins_unstarted second_fails 3 1 {j = 2} (omega arith) (omega arith) below_one refl
      (λ i h. (_, refl, refl)) (omega arith) (omega arith)

abbrev add_width : Task → ℕ → Outcome ℕ
add_width t s = done (s + t.x1)

abbrev with_two : Sched.Sched ℕ
with_two = record {
  n_workers = 2;
  user = record { user_fun = some add_width; user_ctx = none };
  worker = [];
  task_count = 7;
}

abbrev two_tasks : List Task
two_tasks =
    record { x0 = 0; x1 = 8; y0 = 0; y1 = 7 } ∷ record { x0 = 8; x1 = 15; y0 = 0; y1 = 7 } ∷ []

host_yield_lem_example :
    (y : Sched.Yielded ℕ) × (Sched.host_yield with_two two_tasks seen 100 ≡ done y)
    × (y.status ≡ Status.success)
    × (y.state ≡ 123)
    × (y.task_count ≡ 9)
    × (sent sig_start 1 y.acts ≡ 1)
host_yield_lem_example =
    host_yield_lem with_two two_tasks seen 100 2 1 refl (omega arith) refl (omega arith)
      seen-Settles (λ h. absurd (omega arith))
