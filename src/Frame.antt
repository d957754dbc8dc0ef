-- ===== src/Frame.antt =====
-- One image from all the parts: the tasks in the queue are run by a kernel on one surface, each as
-- `proc_fun` of sched/rsched.c and sched/rsched_worker.c does with a task that a thread has taken.
pub mod Order
pub mod Image
pub mod Yield
use mdb.Base.{
  ℕ, ◌≤◌, ◌<◌, ◌≡◌, Bool, true, Option, none, some, List, [], ◌∷◌, get_elem?, Outcome, done, fault,
  ◌>>=◌,
}
use mdb.Queue.{Task}
use mdb.Surface.{Surface}
use mdb.Surface.Pixels.{holding, IsValid}
use mdb.Surface.Paint.{Painted}
use mdb.Tasks.Blocks.{Fits}
use mdb.Tasks.Cover.{in_task}

-- `mdb_kernel_process_block`, on the surface that the kernel has been given
abbrev pub BlockFun : Type 0 → Type 0
BlockFun F = ℕ → ℕ → ℕ → ℕ → Surface F → Outcome (Surface F)

module _ {F : Type 0} (block_fun : BlockFun F) where
  -- `t = rsched_queue_pop(…); proc_fun(t->x0, t->x1, t->y0, t->y1, …)`, by the index that is popped
  unfoldable pub run_task : List (Option Task) → ℕ → Surface F → Outcome (Surface F)
  run_task tasks k s = elim (get_elem? tasks k) [
    | none ↦ fault
    | some slot ↦ elim slot [ none ↦ fault | some t ↦ block_fun t.x0 t.x1 t.y0 t.y1 s ]
  ]

  -- The tasks one after another, in the order in which they are run.
  unfoldable pub run_tasks : List (Option Task) → List ℕ → Surface F → Outcome (Surface F)
  unfolding run_task
  run_tasks tasks [] s = done s
  run_tasks tasks (k ∷ ks) s = run_task tasks k s >>= λ s'. run_tasks tasks ks s'

-- What a scheduler expects of a kernel: a task of an area of w by h is drawn whole, each pixel in
-- its color, and what is drawn besides has its color too.
pub record Kernel {F : Type 0} (block_fun : BlockFun F) (color : ℕ → ℕ → F) (w h : ℕ) : Type 0 where
  pub shape : Task → ℕ → ℕ → Bool
  pub covers : (t : Task) (x y : ℕ) → Fits w h t → in_task t x y ≡ true → shape t x y ≡ true
  pub draws :
      (t : Task) (s : Surface F) (cells : List F)
      → Fits w h t
      → IsValid s cells
      → Painted s color cells (shape t) (block_fun t.x0 t.x1 t.y0 t.y1 (holding s cells))
