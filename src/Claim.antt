-- ===== src/Claim.antt =====
-- sched/rsched_queue.h, `rsched_queue_pop`: threads take indices from the shared counter of the
-- queue, one atomic access at a time, interleaved in any order. The length of the queue is fixed
-- while they do so.
pub mod Invariant
pub mod Overrun
use mdb.Base.{ℕ, ◌+◌, ◌≤◌, ◌<◌, ◌≡◌, ◌≢◌, Bool, true, List, [], ◌∷◌, ℕ_discrete, add32}
use mathlib.Core.Logic.{ite}

-- `cur_task_idx`, and the indices that have been handed out, the latest first.
pub record Shared : Type 0 where
  pub counter : ℕ
  pub taken : List ℕ

-- Where a thread stands, with its local `cur`.
pub data Pc : Type 0 where
  idle : Pc  -- before the load
  expects : (cur : ℕ) → Pc  -- before a compare-exchange that expects `cur`
  claimed : (cur : ℕ) → Pc  -- returned `&queue->tasks[cur]`
  empty : Pc  -- returned `NULL`

-- One step of a thread. A compare-exchange that fails loads the counter into `cur`, and the body of
-- the loop tests and increments it. A `weak` one may fail though the values agree.
pub data Move (weak : Bool) (len : ℕ) (m : Shared) : Pc → Shared → Pc → Type 0 where
  load_empty : len ≤ m.counter → Move weak len m idle m empty
  load_task : m.counter < len → Move weak len m idle m (expects m.counter)
  win :
      {c : ℕ}
      → m.counter ≡ c
      → Move weak len m
          (expects c)
          (record { counter = add32 c 1; taken = c ∷ m.taken })
          (claimed c)
  lose_empty : {c : ℕ} → m.counter ≢ c → len ≤ m.counter → Move weak len m (expects c) m empty
  lose_task :
      {c : ℕ}
      → m.counter ≢ c
      → m.counter < len
      → Move weak len m (expects c) m (expects (add32 m.counter 1))
  spurious_empty : {c : ℕ} → weak ≡ true → len ≤ m.counter → Move weak len m (expects c) m empty
  spurious_task :
      {c : ℕ}
      → weak ≡ true
      → m.counter < len
      → Move weak len m (expects c) m (expects (add32 m.counter 1))
  again : {c : ℕ} → Move weak len m (claimed c) m idle

pub record Pool : Type 0 where
  pub mem : Shared
  pub pc : ℕ → Pc

abbrev pub update {ℓ} : {A : Type ℓ} → (ℕ → A) → ℕ → A → ℕ → A
update f i a j = ite (ℕ_discrete i j) a (f j)

-- Some thread of the `n` moves.
pub data Step (weak : Bool) (n len : ℕ) (s : Pool) : Pool → Type 0 where
  pick :
      (i : ℕ) {m : Shared} {p : Pc}
      → i < n
      → Move weak len s.mem (s.pc i) m p
      → Step weak n len s (record { mem = m; pc = update s.pc i p })

-- The counter as `rsched_queue_requeue` leaves it.
abbrev pub start_pool : Pool
start_pool = record { mem = record { counter = 0; taken = [] }; pc = λ _. Pc.idle }

pub data Reach (weak : Bool) (n len : ℕ) : Pool → Type 0 where
  start : Reach weak n len start_pool
  later : {s t : Pool} → Reach weak n len s → Step weak n len s t → Reach weak n len t
