-- ===== src/Sched/Ends.antt =====
-- What `rsched_create` hands back, and what it has taken and given back by then.
use mdb.Base.{
  ℕ, ◌+◌, ◌^◌, ◌≤◌, ◌<◌, ◌≡◌, refl, ◌∙◌, Bool, List, true, false, none, some, [], ◌++◌, ◌==◌, arith,
  done, if◌then◌else◌, sub32,
}
use mdb.Worker.{st_waiting, st_down}
use mdb.Sched.{Resource, thread, Env, success, fail, Created, Act, shutdown, create}
use mdb.Sched.Wait.{Settles, wait_workers_from_0}
use mdb.Sched.Create.{init_workers-status}
use mdb.Sched.Balance.{Leaves, taken, given, taken-append, given-append}
use mdb.Sched.Held.{
  begun, ended, holds, create-unstarted, create-waited, begun-taken, begun-given, shutdown-done,
  refused, closed, closed-given, closed-taken, ended-workers, ended-taken, ended-given,
}

workers_of : (n : ℕ) → n + 1 < 2 ^ 32 → sub32 (n + 1) 1 ≡ n
workers_of n small = omega arith

-- Where the threads of all `n` workers start, they are found waiting up to the m-th, which is
-- found down if there is one, and each worker that is given back has its state read in the end, and
-- its thread then ends: `rsched_create` returns, with a scheduler just if all are waiting. It has
-- taken the memory, the statistics, the queue, a lock and a thread for each worker once. A
-- `rsched_shutdown` where there is a scheduler returns too, and behind it, and at once where there
-- is none, each of them has been given back once.
pub create-shutdown :
    (env : Env) (n m : ℕ) (r : Resource) (j : ℕ)
    → n + 1 < 2 ^ 32
    → ((i : ℕ) → i < n → env.starts i ≡ true)
    → ((i : ℕ) → i < n → Leaves env i)
    → m ≤ n
    → ((i : ℕ) → i < m → Settles st_waiting (env.states i))
    → (m < n → Settles st_down (env.states m))
    → (c : Created) × (create env (n + 1) ≡ done c)
      × (c.workers ≡ (if m == n then some n else none))
      × (taken r j c.acts ≡ holds n r j)
      × ((acts : List Act) × ((if m == n then shutdown n env else done []) ≡ done acts)
          × (given r j (c.acts ++ acts) ≡ holds n r j))
unfolding create
create-shutdown env n m r j small starts leaves le waiting down = (
  ended env n (m == n),
  rw (workers_of n small) (
      create-waited env n (m == n) leaves
        (init_workers-status env n starts n 0 (omega arith) (omega arith)
            (λ h. absurd (omega arith))
          ∙ if_all)
        (wait_workers_from_0 n m env.states le waiting down)),
  ended-workers env n starts leaves (m == n),
  ended-taken env n starts leaves (m == n) r j,
  (
    if m == n then closed env n else [],
    shuts (m == n),
    ended-given env n starts leaves (m == n) r j,
  ),
)
  where
    if_all : (if n == 0 + n then success else fail) ≡ success
    if_all = ground arith

    shuts :
        (all : Bool)
        → (if all then shutdown n env else done []) ≡ done (if all then closed env n else [])
    shuts true = shutdown-done env n leaves
    shuts false = refl

-- Where the threads of the first k workers start, that of the next does not, and whatever is joined
-- is joined in the end: `rsched_create` returns no scheduler, and it has joined the thread of each
-- of its `n` workers, though from the k-th on there is none.
pub create_joins_unstarted :
    (env : Env) (n k : ℕ) {j : ℕ}
    → n + 1 < 2 ^ 32
    → k < n
    → ((i : ℕ) → i < k → env.starts i ≡ true)
    → env.starts k ≡ false
    → ((i : ℕ) → i < n → Leaves env i)
    → k ≤ j
    → j < n
    → (c : Created) × (create env (n + 1) ≡ done c)
      × (c.workers ≡ none)
      × (taken thread j c.acts ≡ 0)
      × (given thread j c.acts ≡ 1)
unfolding create
create_joins_unstarted env n k {j} small less on off leaves le lj =
    let acts = begun env n in
    let two = closed env n in
    let off' : k < n → env.starts k ≡ false = λ h. off in
    (
      refused env n,
      rw (workers_of n small) (
          create-unstarted env n leaves
            (init_workers-status env k on n 0 (omega arith) (omega arith) (λ h. off) ∙ not_all)),
      refl,
      ground (
        arith,
        taken-append thread j acts two,
        closed-taken env n thread j,
        begun-taken env n k on (omega arith) off' thread j,
      ),
      ground (
        arith,
        given-append thread j acts two,
        closed-given env n leaves thread j,
        begun-given env n k on (omega arith) off' thread j,
      ),
    )
  where
    not_all : (if k == 0 + n then success else fail) ≡ fail
    not_all = ground arith
