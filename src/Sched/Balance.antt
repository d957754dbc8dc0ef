-- ===== src/Sched/Balance.antt =====
-- What `rsched_create` takes, and what `rsched_shutdown` gives back.
use mdb.Base.{
  ◌≤◌, ◌<◌, Option, none, some, sym, subst, done, if◌then◌else◌, ℕ, zero, suc, ◌+◌, ◌≡◌, refl, Bool,
  true, false, List, [], ◌∷◌, ◌++◌, ◌==◌, ◌&&◌, ltb, leb, one_if, arith,
}
use mdb.Worker.{st_down, sig_quit}
use mdb.Sched.{
  Resource, sched_memory, worker_memory, host_stats, queue, worker_stats, lock, thread, Act, take,
  give, send, Env, worker_destroy, destroy_workers,
}

abbrev code : Resource → ℕ
code sched_memory = 0
code worker_memory = 1
code host_stats = 2
code queue = 6
code worker_stats = 3
code lock = 4
code thread = 5

abbrev IsSome : Option ℕ → Type 0
IsSome none = ⊥
IsSome (some k) = Unit

-- What every worker has one of.
abbrev pub of_worker : Resource → Bool
of_worker sched_memory = false
of_worker worker_memory = false
of_worker host_stats = false
of_worker queue = false
of_worker worker_stats = true
of_worker lock = true
of_worker thread = true

abbrev is_it : Resource → ℕ → Resource → ℕ → Bool
is_it r j r' i = (code r' == code r) && (i == j)

-- How often the j-th of a resource is taken, and given back.
abbrev pub taken : Resource → ℕ → List Act → ℕ
taken r j [] = 0
taken r j (take r' i ∷ acts) = one_if (is_it r j r' i) + taken r j acts
taken r j (give r' i ∷ acts) = taken r j acts
taken r j (send sig i ∷ acts) = taken r j acts

abbrev pub given : Resource → ℕ → List Act → ℕ
given r j [] = 0
given r j (take r' i ∷ acts) = given r j acts
given r j (give r' i ∷ acts) = one_if (is_it r j r' i) + given r j acts
given r j (send sig i ∷ acts) = given r j acts

pub taken-append :
    (r : Resource) (j : ℕ) (a b : List Act) → taken r j (a ++ b) ≡ taken r j a + taken r j b
taken-append r j [] b = omega arith
taken-append r j (take r' i ∷ a) b = omega (arith, taken-append r j a b)
taken-append r j (give r' i ∷ a) b = taken-append r j a b
taken-append r j (send sig i ∷ a) b = taken-append r j a b

pub given-append :
    (r : Resource) (j : ℕ) (a b : List Act) → given r j (a ++ b) ≡ given r j a + given r j b
given-append r j [] b = omega arith
given-append r j (take r' i ∷ a) b = given-append r j a b
given-append r j (give r' i ∷ a) b = omega (arith, given-append r j a b)
given-append r j (send sig i ∷ a) b = given-append r j a b

-- The workers from the i-th on.
abbrev pub in_range : ℕ → ℕ → ℕ → Bool
in_range i n j = leb i j && ltb j (i + n)

-- A worker is given back where its state is read in the end and its thread ends.
abbrev pub Leaves : Env → ℕ → Type 0
Leaves env i = (state : ℕ) × (env.state_at_exit i ≡ some state) × (env.ends i ≡ true)

-- What `rsched_worker_destroy` does when it returns.
abbrev acts_of : Option ℕ → ℕ → List Act
acts_of none i = []
acts_of (some state) i =
    (if state == st_down then [] else send sig_quit i ∷ [])
    ++ (give thread i ∷ give lock i ∷ give worker_stats i ∷ [])

worker_destroy-done :
    (env : Env) (i : ℕ)
    → Leaves env i
    → worker_destroy env i ≡ done (acts_of (env.state_at_exit i) i)
unfolding worker_destroy
worker_destroy-done env i (state, e, j) = rw (worker_destroy, e, j)

-- What the loop over the workers does when it ends.
pub released : ℕ → ℕ → Env → List Act
released zero i env = []
released (suc rounds) i env = acts_of (env.state_at_exit i) i ++ released rounds (i + 1) env

pub destroy_workers-done :
    (env : Env) (rounds i : ℕ)
    → ((j : ℕ) → i ≤ j → j < i + rounds → Leaves env j)
    → destroy_workers rounds i env ≡ done (released rounds i env)
unfolding destroy_workers released
destroy_workers-done env zero i l = refl
destroy_workers-done env (suc rounds) i l = rw (
  destroy_workers,
  worker_destroy-done env i (l i (omega arith) (omega arith)),
  destroy_workers-done env rounds (i + 1) (λ j a b. l j (omega arith) (omega arith)),
)

acts_of-given :
    (o : Option ℕ) (r : Resource) (i j : ℕ)
    → IsSome o
    → given r j (acts_of o i) ≡ one_if (of_worker r && (i == j))
acts_of-given none r i j h = absurd h
acts_of-given (some state) sched_memory i j h = ground arith
acts_of-given (some state) worker_memory i j h = ground arith
acts_of-given (some state) host_stats i j h = ground arith
acts_of-given (some state) queue i j h = ground arith
acts_of-given (some state) worker_stats i j h = ground arith
acts_of-given (some state) lock i j h = ground arith
acts_of-given (some state) thread i j h = ground arith

acts_of-taken : (o : Option ℕ) (r : Resource) (i j : ℕ) → taken r j (acts_of o i) ≡ 0
acts_of-taken none r i j = refl
acts_of-taken (some state) r i j = ground arith

Leaves-IsSome : (env : Env) (i : ℕ) → Leaves env i → IsSome (env.state_at_exit i)
Leaves-IsSome env i l = subst IsSome (sym l.1) tt

pub released-given :
    (env : Env) (r : Resource) (rounds i j : ℕ)
    → ((j : ℕ) → i ≤ j → j < i + rounds → Leaves env j)
    → given r j (released rounds i env) ≡ one_if (of_worker r && in_range i rounds j)
unfolding released
released-given env r zero i j l = ground arith
released-given env r (suc rounds) i j l = ground (
  arith,
  given-append r j (acts_of (env.state_at_exit i) i) (released rounds (i + 1) env),
  acts_of-given (env.state_at_exit i) r i j (Leaves-IsSome env i (l i (omega arith) (omega arith))),
  released-given env r rounds (i + 1) j (λ j a b. l j (omega arith) (omega arith)),
)

pub released-taken :
    (env : Env) (r : Resource) (rounds i j : ℕ) → taken r j (released rounds i env) ≡ 0
unfolding released
released-taken env r zero i j = refl
released-taken env r (suc rounds) i j = omega (
  arith,
  taken-append r j (acts_of (env.state_at_exit i) i) (released rounds (i + 1) env),
  acts_of-taken (env.state_at_exit i) r i j,
  released-taken env r rounds (i + 1) j,
)
