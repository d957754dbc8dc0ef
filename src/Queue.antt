-- ===== src/Queue.antt =====
-- sched/rsched_queue.c and rsched_queue.h: the task queue that the workers share, as one thread
-- sees it. `Claim` has the concurrent `rsched_queue_pop`.
-- The array behind `tasks` is the list of its cells. A cell is `none` while its content is
-- indeterminate, and a write outside the array is a `fault`. Allocation is taken to succeed.
pub mod Push
pub mod Pushes
pub mod Split
pub mod Grid
use Prim.Native.Nat.{bit_or}
use mdb.Base.{
  ℕ, zero, suc, ◌+◌, ◌-◌, ◌/◌, min, Bool, true, false, not, ◌&&◌, Option, none, some, List, [],
  ◌++◌, ltb, leb, if◌then◌else◌, length, set, take, drop, replicate, Outcome, done, fault, timeout,
  ◌>>=◌, add32, has_flag,
}

abbrev pub que_discard : ℕ
que_discard = 1

abbrev pub que_extend : ℕ
que_extend = 2

abbrev pub que_zero : ℕ
que_zero = 4

pub record BlockSize : Type 0 where
  pub x : ℕ
  pub y : ℕ

pub record Task : Type 0 where
  pub x0 : ℕ
  pub x1 : ℕ
  pub y0 : ℕ
  pub y1 : ℕ

pub record Queue : Type 0 where
  pub cur_task_idx : ℕ
  pub tasks : List (Option Task)
  pub capacity : ℕ
  pub length : ℕ

abbrev pub zero_task : Task
zero_task = record { x0 = 0; x1 = 0; y0 = 0; y1 = 0 }

unfoldable pub init : Queue
init = record { cur_task_idx = 0; tasks = []; capacity = 0; length = 0 }

-- The fields are reset whatever they were.
unfoldable pub destroy : Queue → Queue
destroy q = record q { tasks = []; length = 0; capacity = 0; cur_task_idx = 0 }

abbrev pub realloc : ℕ → List (Option Task) → List (Option Task)
realloc n cells = take n cells ++ replicate (n - length cells) none

-- `memset(tasks + i, 0, n * sizeof(*tasks))`
abbrev pub memset_zero : ℕ → ℕ → List (Option Task) → Outcome (List (Option Task))
memset_zero i n cells =
    if leb (i + n) (length cells)
    then done (take i cells ++ (replicate n (some zero_task) ++ drop (i + n) cells))
    else fault

resize_discard : Queue → ℕ → Queue
resize_discard q n = record q {
  tasks = replicate n (some zero_task);
  capacity = n;
  length = 0;
  cur_task_idx = 0;
}

resize_extend : Queue → ℕ → Bool → Outcome Queue
resize_extend q n wipe =
    let new_cap = add32 q.capacity n in
    let grown = realloc new_cap q.tasks in
    (if wipe then memset_zero q.capacity n grown else done grown) >>= λ cells.
    done (record q { tasks = cells; capacity = new_cap })

-- Unknown flags are logged, and change nothing.
unfoldable pub resize : Queue → ℕ → ℕ → Outcome Queue
unfolding resize_discard resize_extend
resize q n flags =
    if has_flag flags que_discard && not (has_flag flags que_extend)
    then done (resize_discard q n)
    else if has_flag flags que_extend && not (has_flag flags que_discard)
    then resize_extend q n (has_flag flags que_zero)
    else done q

store : Queue → Task → Outcome Queue
store q t =
    if ltb q.length (length q.tasks)
    then done (record q { tasks = set q.tasks q.length (some t); length = add32 q.length 1 })
    else fault

unfoldable pub push : Queue → Task → Outcome Queue
unfolding store resize
push q t =
    (if leb q.capacity q.length
      then resize q (q.capacity / 4) (bit_or que_extend que_zero)
      else done q)
    >>= λ q'. store q' t

-- The inner loop of `rsched_split_task`, along one row of blocks.
unfoldable pub split_row : ℕ → Queue → ℕ → ℕ → ℕ → ℕ → ℕ → Outcome Queue
split_row zero q x x1 y y11 gx = timeout
split_row (suc fuel) q x x1 y y11 gx = elim (ltb x x1) [
  | false ↦ done q
  | true ↦
      let x11 = min (add32 x gx) x1 in
      push q (record { x0 = x; x1 = x11; y0 = y; y1 = y11 }) >>= λ q'.
      split_row fuel q' x11 x1 y y11 gx
]

-- The outer loop. Each row gets `width` rounds.
unfoldable pub split_rows : ℕ → ℕ → Queue → ℕ → ℕ → ℕ → ℕ → BlockSize → Outcome Queue
split_rows zero width q x0 x1 y y1 grain = timeout
split_rows (suc fuel) width q x0 x1 y y1 grain = elim (ltb y y1) [
  | false ↦ done q
  | true ↦
      let y11 = min (add32 y grain.y) y1 in
      split_row width q x0 x1 y y11 grain.x >>= λ q'. split_rows fuel width q' x0 x1 y11 y1 grain
]

-- Rounds that suffice where each of them moves on: one for each coordinate, and one for the exit.
unfoldable pub split_task : Queue → ℕ → ℕ → ℕ → ℕ → BlockSize → Outcome Queue
split_task q x0 x1 y0 y1 grain = split_rows (suc (y1 - y0)) (suc (x1 - x0)) q x0 x1 y0 y1 grain

unfoldable pub requeue : Queue → Queue
requeue q = record q { cur_task_idx = 0 }
