-- ===== src/Sched/Create.antt =====
-- The two ends of `rsched_create`: all workers start, or one does not.
use mdb.Base.{
  ℕ, zero, suc, ◌+◌, min, ◌≤◌, ◌<◌, ◌≡◌, refl, ap, dec_lt, sym, ◌∙◌, true, false, List, [], ◌∷◌,
  ◌++◌, ◌==◌, ◌&&◌, ltb, leb, one_if, arith, if◌then◌else◌,
}
use mdb.Sched.{
  Resource, sched_memory, worker_memory, host_stats, queue, worker_stats, lock, thread, Act, take,
  Env, success, fail, worker_init, init_workers,
}
use mdb.Sched.Balance.{of_worker, taken, given, taken-append}

module _ (env : Env) where
  started : ℕ → List Act
  started i = take worker_stats i ∷ take lock i ∷ take thread i ∷ []

  worker_init-on : (i : ℕ) → env.starts i ≡ true → worker_init env i ≡ (success, started i)
  unfolding worker_init started
  worker_init-on i e = rw (worker_init, e)

  worker_init-off :
      (i : ℕ)
      → env.starts i ≡ false
      → worker_init env i ≡ (fail, take worker_stats i ∷ take lock i ∷ [])
  unfolding worker_init
  worker_init-off i e = rw (worker_init, e)

  init_workers-on :
      (rounds i : ℕ)
      → env.starts i ≡ true
      → init_workers (suc rounds) i env
        ≡ ((init_workers rounds (i + 1) env).0, started i ++ (init_workers rounds (i + 1) env).1)
  unfolding init_workers
  init_workers-on rounds i e =
      rw (init_workers, worker_init-on i e)
        (ap (λ p. ((init_workers rounds (i + 1) env).0, p.1 ++ (init_workers rounds (i + 1) env).1))
          (worker_init-on i e))

  init_workers-off :
      (rounds i : ℕ)
      → env.starts i ≡ false
      → init_workers (suc rounds) i env ≡ (fail, take worker_stats i ∷ take lock i ∷ [])
  unfolding init_workers
  init_workers-off rounds i e =
      rw (init_workers, worker_init-off i e) (ap (λ p. (fail, p.1)) (worker_init-off i e))

  -- The first worker that does not start, of those from the i-th on, is the k-th, if there is one.
  module _ (k : ℕ) (on : (j : ℕ) → j < k → env.starts j ≡ true) where
    pub init_workers-status :
        (rounds i : ℕ)
        → i ≤ k
        → k ≤ i + rounds
        → (k < i + rounds → env.starts k ≡ false)
        → (init_workers rounds i env).0 ≡ (if k == i + rounds then success else fail)
    unfolding init_workers
    init_workers-status zero i h l off = ground arith
    init_workers-status (suc rounds) i h l off = elim (dec_lt i k) [
      | yes more ↦
          let same : i + 1 + rounds ≡ i + suc rounds = omega arith in
          rw (init_workers-on rounds i (on i more)) (
            init_workers-status rounds (i + 1) (omega arith) (omega arith) (λ h. off (omega arith))
            ∙ ap (λ n. if k == n then success else fail) same)
      | no last ↦
          let here : k ≡ i = omega arith in
          let stop : env.starts i ≡ false = ap env.starts (sym here) ∙ off (omega arith) in
          let early : (k == i + suc rounds) ≡ false = ground arith in
          rw (init_workers-off rounds i stop, early)
    ]

    pub init_workers-given :
        (r : Resource) (j rounds i : ℕ)
        → i ≤ k
        → k ≤ i + rounds
        → (k < i + rounds → env.starts k ≡ false)
        → given r j (init_workers rounds i env).1 ≡ 0
    unfolding init_workers started
    init_workers-given r j zero i h l off = refl
    init_workers-given r j (suc rounds) i h l off = elim (dec_lt i k) [
      | yes more ↦ rw (init_workers-on rounds i (on i more)) (
          init_workers-given r j rounds (i + 1) (omega arith) (omega arith)
            (λ h. off (omega arith)))
      | no last ↦
          let here : k ≡ i = omega arith in
          let stop : env.starts i ≡ false = ap env.starts (sym here) ∙ off (omega arith) in
          rw (init_workers-off rounds i stop)
    ]

    -- How many workers have had a resource taken for them
    abbrev pub served : Resource → ℕ → ℕ
    served sched_memory n = 0
    served worker_memory n = 0
    served host_stats n = 0
    served queue n = 0
    served worker_stats n = min (k + 1) n
    served lock n = min (k + 1) n
    served thread n = k

    -- The interval of those served, which is empty, begins with the i-th, or is the i-th alone.
    served-zero :
        (r : Resource) (i j : ℕ)
        → k ≡ i
        → 0 ≡ one_if (of_worker r && (leb i j && ltb j (served r i)))
    served-zero sched_memory i j e = ground arith
    served-zero worker_memory i j e = ground arith
    served-zero host_stats i j e = ground arith
    served-zero queue i j e = ground arith
    served-zero worker_stats i j e = ground arith
    served-zero lock i j e = ground arith
    served-zero thread i j e = ground arith

    served-on :
        (r : Resource) (i j n : ℕ)
        → i < k
        → k ≤ n
        → taken r j (started i) + one_if (of_worker r && (leb (i + 1) j && ltb j (served r n)))
          ≡ one_if (of_worker r && (leb i j && ltb j (served r n)))
    unfolding started
    served-on sched_memory i j n h l = ground arith
    served-on worker_memory i j n h l = ground arith
    served-on host_stats i j n h l = ground arith
    served-on queue i j n h l = ground arith
    served-on worker_stats i j n h l = ground arith
    served-on lock i j n h l = ground arith
    served-on thread i j n h l = ground arith

    served-off :
        (r : Resource) (i j n : ℕ)
        → k ≡ i
        → i < n
        → taken r j (take worker_stats i ∷ take lock i ∷ [])
          ≡ one_if (of_worker r && (leb i j && ltb j (served r n)))
    served-off sched_memory i j n e l = ground arith
    served-off worker_memory i j n e l = ground arith
    served-off host_stats i j n e l = ground arith
    served-off queue i j n e l = ground arith
    served-off worker_stats i j n e l = ground arith
    served-off lock i j n e l = ground arith
    served-off thread i j n e l = ground arith

    pub init_workers-taken :
        (r : Resource) (j rounds i : ℕ)
        → i ≤ k
        → k ≤ i + rounds
        → (k < i + rounds → env.starts k ≡ false)
        → taken r j (init_workers rounds i env).1
          ≡ one_if (of_worker r && (leb i j && ltb j (served r (i + rounds))))
    unfolding init_workers
    init_workers-taken r j zero i h l off =
        let none_left : i ≡ i + 0 = omega arith in
        served-zero r i j (omega arith)
        ∙ ap (λ n. one_if (of_worker r && (leb i j && ltb j (served r n)))) none_left
    init_workers-taken r j (suc rounds) i h l off = elim (dec_lt i k) [
      | yes more ↦
          let same : i + 1 + rounds ≡ i + suc rounds = omega arith in
          rw (init_workers-on rounds i (on i more)) (
            taken-append r j (started i) (init_workers rounds (i + 1) env).1
            ∙ ap (λ n. taken r j (started i) + n)
                (init_workers-taken r j rounds (i + 1) (omega arith) (omega arith)
                    (λ h. off (omega arith))
                  ∙ ap (λ n. one_if (of_worker r && (leb (i + 1) j && ltb j (served r n)))) same)
            ∙ served-on r i j (i + suc rounds) more l)
      | no last ↦
          let here : k ≡ i = omega arith in
          let stop : env.starts i ≡ false = ap env.starts (sym here) ∙ off (omega arith) in
          rw (init_workers-off rounds i stop) (served-off r i j (i + suc rounds) here (omega arith))
    ]
