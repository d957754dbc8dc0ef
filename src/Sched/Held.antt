-- ===== src/Sched/Held.antt =====
-- What `rsched_create` holds when it ends, and what `rsched_shutdown` gives back of it.
use mdb.Base.{
  ℕ, ◌+◌, ◌≤◌, ◌<◌, ◌≡◌, refl, ap, ap₂, ◌∙◌, Bool, not, true, false, none, some, List, [], ◌∷◌,
  ◌++◌, ◌==◌, ◌&&◌, ltb, one_if, arith, done, if◌then◌else◌,
}
use mdb.Sched.{
  Resource, sched_memory, worker_memory, host_stats, queue, worker_stats, lock, thread, Act, take,
  give, Env, success, fail, Created, init_workers, shutdown, init_structure, shutdown_ret_fail,
  create_workers, sync_workers, wait_workers,
}
use mdb.Sched.Create.{init_workers-given, init_workers-taken, served}
use mdb.Sched.Balance.{
  of_worker, taken, given, taken-append, given-append, destroy_workers-done, released,
  released-taken, released-given, Leaves,
}

module _ (env : Env) (n : ℕ) where
  pub begun : List Act
  begun = init_structure ++ (take queue 0 ∷ (init_workers n 0 env).1)

  -- What a shutdown does that ends.
  pub closed : List Act
  closed =
      give host_stats 0
      ∷ (released n 0 env ++ (give queue 0 ∷ give worker_memory 0 ∷ give sched_memory 0 ∷ []))

  pub shutdown-done : ((i : ℕ) → i < n → Leaves env i) → shutdown n env ≡ done closed
  unfolding shutdown closed
  shutdown-done l = rw (shutdown, destroy_workers-done env n 0 (λ j a b. l j (omega (arith, b))))

  -- What is handed back where not all is well.
  abbrev pub refused : Created
  refused = record { status = fail; workers = none; acts = begun ++ closed }

  refuses : ((i : ℕ) → i < n → Leaves env i) → shutdown_ret_fail n env begun ≡ done refused
  unfolding shutdown_ret_fail
  refuses l = rw (shutdown_ret_fail, shutdown-done l)

  -- `rsched_create` by what its loop and its wait come to.
  pub create-unstarted :
      ((i : ℕ) → i < n → Leaves env i)
      → (init_workers n 0 env).0 ≡ fail
      → create_workers env n ≡ done refused
  unfolding begun create_workers
  create-unstarted l e = rw (create_workers, e) (refuses l)

  -- What it hands back when all start, by whether all are found waiting.
  pub ended : Bool → Created
  ended true = record { status = success; workers = some n; acts = begun }
  ended false = refused

  pub create-waited :
      (all : Bool)
      → ((i : ℕ) → i < n → Leaves env i)
      → (init_workers n 0 env).0 ≡ success
      → wait_workers n 0 env.states ≡ done (if all then success else fail)
      → create_workers env n ≡ done (ended all)
  unfolding begun ended create_workers sync_workers
  create-waited true l e w = rw (create_workers, e, sync_workers, w)
  create-waited false l e w = rw (create_workers, e, sync_workers, w) (refuses l)

  module _ (k : ℕ) (on : (i : ℕ) → i < k → env.starts i ≡ true) (le : k ≤ n)
      (off : k < n → env.starts k ≡ false) where
    -- What has been taken before the wait.
    pub begun-taken :
        (r : Resource) (j : ℕ)
        → taken r j begun
          ≡ one_if ((j == 0) && not (of_worker r))
            + one_if (of_worker r && ltb j (served env k on r n))
    unfolding begun init_structure
    begun-taken sched_memory j = ground (
      arith,
      init_workers-taken env k on sched_memory j n 0 (omega arith) (omega arith)
          (λ h. off (omega arith)),
    )
    begun-taken worker_memory j = ground (
      arith,
      init_workers-taken env k on worker_memory j n 0 (omega arith) (omega arith)
          (λ h. off (omega arith)),
    )
    begun-taken host_stats j = ground (
      arith,
      init_workers-taken env k on host_stats j n 0 (omega arith) (omega arith)
          (λ h. off (omega arith)),
    )
    begun-taken queue j = ground (
      arith,
      init_workers-taken env k on queue j n 0 (omega arith) (omega arith) (λ h. off (omega arith)),
    )
    begun-taken worker_stats j = ground (
      arith,
      init_workers-taken env k on worker_stats j n 0 (omega arith) (omega arith)
          (λ h. off (omega arith)),
    )
    begun-taken lock j = ground (
      arith,
      init_workers-taken env k on lock j n 0 (omega arith) (omega arith) (λ h. off (omega arith)),
    )
    begun-taken thread j = ground (
      arith,
      init_workers-taken env k on thread j n 0 (omega arith) (omega arith) (λ h. off (omega arith)),
    )

    pub begun-given : (r : Resource) (j : ℕ) → given r j begun ≡ 0
    unfolding begun init_structure
    begun-given r j =
        init_workers-given env k on r j n 0 (omega arith) (omega arith) (λ h. off (omega arith))

  -- What the shutdown gives back.
  module _ (leaves : (i : ℕ) → i < n → Leaves env i) where
    closed-released :
        (r : Resource) (j : ℕ) → given r j (released n 0 env) ≡ one_if (of_worker r && ltb j n)
    closed-released r j =
        ground (arith, released-given env r n 0 j (λ i a b. leaves i (omega (arith, b))))

    pub closed-given :
        (r : Resource) (j : ℕ)
        → given r j closed
          ≡ one_if ((j == 0) && not (of_worker r)) + one_if (of_worker r && ltb j n)
    unfolding closed
    closed-given sched_memory j = ground (
      arith,
      given-append sched_memory j (released n 0 env)
          (give queue 0 ∷ give worker_memory 0 ∷ give sched_memory 0 ∷ []),
      closed-released sched_memory j,
    )
    closed-given worker_memory j = ground (
      arith,
      given-append worker_memory j (released n 0 env)
          (give queue 0 ∷ give worker_memory 0 ∷ give sched_memory 0 ∷ []),
      closed-released worker_memory j,
    )
    closed-given host_stats j = ground (
      arith,
      given-append host_stats j (released n 0 env)
          (give queue 0 ∷ give worker_memory 0 ∷ give sched_memory 0 ∷ []),
      closed-released host_stats j,
    )
    closed-given queue j = ground (
      arith,
      given-append queue j (released n 0 env)
          (give queue 0 ∷ give worker_memory 0 ∷ give sched_memory 0 ∷ []),
      closed-released queue j,
    )
    closed-given worker_stats j = ground (
      arith,
      given-append worker_stats j (released n 0 env)
          (give queue 0 ∷ give worker_memory 0 ∷ give sched_memory 0 ∷ []),
      closed-released worker_stats j,
    )
    closed-given lock j = ground (
      arith,
      given-append lock j (released n 0 env)
          (give queue 0 ∷ give worker_memory 0 ∷ give sched_memory 0 ∷ []),
      closed-released lock j,
    )
    closed-given thread j = ground (
      arith,
      given-append thread j (released n 0 env)
          (give queue 0 ∷ give worker_memory 0 ∷ give sched_memory 0 ∷ []),
      closed-released thread j,
    )

  pub closed-taken : (r : Resource) (j : ℕ) → taken r j closed ≡ 0
  unfolding closed
  closed-taken r j = omega (
    arith,
    taken-append r j (released n 0 env)
        (give queue 0 ∷ give worker_memory 0 ∷ give sched_memory 0 ∷ []),
    released-taken env r n 0 j,
  )

-- How many of the j-th of a resource a scheduler with `n` workers has.
abbrev pub holds : ℕ → Resource → ℕ → ℕ
holds n r j = one_if ((j == 0) && not (of_worker r)) + one_if (of_worker r && ltb j n)

module _ (env : Env) (n : ℕ) (starts : (i : ℕ) → i < n → env.starts i ≡ true)
    (leaves : (i : ℕ) → i < n → Leaves env i) where
  none_off : n < n → env.starts n ≡ false
  none_off h = absurd (omega arith)

  pub ended-workers : (all : Bool) → (ended env n all).workers ≡ (if all then some n else none)
  unfolding ended
  ended-workers true = refl
  ended-workers false = refl

  all-taken : (r : Resource) (j : ℕ) → taken r j (begun env n) ≡ holds n r j
  all-taken sched_memory j = begun-taken env n n starts (omega arith) none_off sched_memory j
  all-taken worker_memory j = begun-taken env n n starts (omega arith) none_off worker_memory j
  all-taken host_stats j = begun-taken env n n starts (omega arith) none_off host_stats j
  all-taken queue j = begun-taken env n n starts (omega arith) none_off queue j
  all-taken worker_stats j =
      ground (arith, begun-taken env n n starts (omega arith) none_off worker_stats j)
  all-taken lock j = ground (arith, begun-taken env n n starts (omega arith) none_off lock j)
  all-taken thread j = begun-taken env n n starts (omega arith) none_off thread j

  pub ended-taken :
      (all : Bool) (r : Resource) (j : ℕ) → taken r j (ended env n all).acts ≡ holds n r j
  unfolding ended
  ended-taken true r j = all-taken r j
  ended-taken false r j =
      omega (
        arith,
        taken-append r j (begun env n) (closed env n),
        closed-taken env n r j,
        all-taken r j,
      )

  pub ended-given :
      (all : Bool) (r : Resource) (j : ℕ)
      → given r j ((ended env n all).acts ++ (if all then closed env n else [])) ≡ holds n r j
  unfolding ended
  ended-given true r j =
      given-append r j (begun env n) (closed env n)
      ∙ ap₂ ◌+◌ (begun-given env n n starts (omega arith) none_off r j)
          (closed-given env n leaves r j)
      ∙ omega arith
  ended-given false r j =
      given-append r j (begun env n ++ closed env n) []
      ∙ ap (λ k. k + 0)
          (given-append r j (begun env n) (closed env n)
            ∙ ap₂ ◌+◌ (begun-given env n n starts (omega arith) none_off r j)
                (closed-given env n leaves r j))
      ∙ omega arith
