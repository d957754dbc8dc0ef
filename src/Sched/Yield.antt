-- ===== src/Sched/Yield.antt =====
-- What `rsched_host_yield` does.
use mdb.Base.{
  ℕ, zero, suc, ◌+◌, ◌%◌, ◌^◌, ◌≤◌, ◌<◌, ◌≡◌, refl, ap, sym, ◌∙◌, some, List, [], ◌∷◌, ◌==◌, ◌&&◌,
  ltb, leb, one_if, length, arith, Outcome, done, if◌then◌else◌, ◌>>=◌, >>=_assoc,
}
use mathlib.Core.Path.{fun_ext}
use mdb.Queue.{Task}
use mdb.Worker.{st_waiting, st_down, sig_start}
use mdb.Sched.{
  Act, take, give, send, success, fail, Sched, Yielded, run_workers, host_loop, host_yield,
}
use mdb.Sched.Wait.{Settles, wait_workers_from_0}

-- How often a signal has been sent to a worker.
abbrev pub sent : ℕ → ℕ → List Act → ℕ
sent sig j [] = 0
sent sig j (take r i ∷ acts) = sent sig j acts
sent sig j (give r i ∷ acts) = sent sig j acts
sent sig j (send sig' i ∷ acts) = one_if ((sig' == sig) && (i == j)) + sent sig j acts

run_workers-sent :
    (rounds i j : ℕ)
    → sent sig_start j (run_workers rounds i) ≡ one_if (leb i j && ltb j (i + rounds))
unfolding run_workers
run_workers-sent zero i j = ground arith
run_workers-sent (suc rounds) i j = ground (arith, run_workers-sent rounds (i + 1) j)

module _ {S : Type 0} where
  -- A function over a list of tasks, one after another.
  abbrev pub each : (Task → S → Outcome S) → List Task → S → Outcome S
  each f [] s = done s
  each f (t ∷ ts) s = f t s >>= λ s'. each f ts s'

  host_loop-each :
      (f : Task → S → Outcome S) (tasks : List Task) (count : ℕ) (s : S)
      → count < 2 ^ 64
      → host_loop f tasks count s
        ≡ (each f tasks s >>= λ s'. done ((count + length tasks) % 2 ^ 64, s'))
  unfolding host_loop
  host_loop-each f [] count s h = let same : (count + 0) % 2 ^ 64 ≡ count = omega arith in rw same
  host_loop-each f (t ∷ ts) count s h =
      let next = (count + 1) % 2 ^ 64 in
      let total : (next + length ts) % 2 ^ 64 ≡ (count + suc (length ts)) % 2 ^ 64 = omega arith in
      let later : (s : S)
          → host_loop f ts next s
            ≡ (each f ts s >>= λ s'. done ((count + suc (length ts)) % 2 ^ 64, s')) =
        λ s.
          host_loop-each f ts next s (omega arith)
          ∙ ap (λ n. each f ts s >>= λ s'. done (n, s')) total in
      ap (λ k. f t s >>= k) (fun_ext later)
      ∙ sym (>>=_assoc (f t s) (each f ts) (λ s'. done ((count + suc (length ts)) % 2 ^ 64, s')))

  -- Where a function is set and returns for each task that the host is handed, one after another,
  -- and the workers are found waiting up to the k-th, which is found down if there is one: the host
  -- returns, with a success just if all are waiting; it has run the function on each task, in
  -- order, has counted them, and has sent START once to each worker and to no other.
  pub host_yield_lem :
      (sched : Sched S) (tasks : List Task) (states : ℕ → List ℕ) (s : S) {s' : S}
      {f : Task → S → Outcome S} (k j : ℕ)
      → sched.user.user_fun ≡ some f
      → sched.task_count < 2 ^ 64
      → each f tasks s ≡ done s'
      → k ≤ sched.n_workers
      → ((i : ℕ) → i < k → Settles st_waiting (states i))
      → (k < sched.n_workers → Settles st_down (states k))
      → (y : Yielded S) × (host_yield sched tasks states s ≡ done y)
        × (y.status ≡ (if k == sched.n_workers then success else fail))
        × (y.state ≡ s')
        × (y.task_count ≡ (sched.task_count + length tasks) % 2 ^ 64)
        × (sent sig_start j y.acts ≡ one_if (ltb j sched.n_workers))
  unfolding host_yield
  host_yield_lem sched tasks states s {s'} {f} k j set small runs le waiting down = (
    record {
      status = if k == sched.n_workers then success else fail;
      task_count = (sched.task_count + length tasks) % 2 ^ 64;
      acts = run_workers sched.n_workers 0;
      state = s';
    },
    rw (
      set,
      host_loop-each f tasks sched.task_count s small,
      runs,
      wait_workers_from_0 sched.n_workers k states le waiting down,
    ),
    refl,
    refl,
    refl,
    ground (arith, run_workers-sent sched.n_workers 0 j),
  )
