-- ===== src/Tasks/Create.antt =====
-- When the queue that `rsched_create_tasks` makes is large enough, and when it is overrun.
use mdb.Base.{
  ℕ, ◌-◌, ◌*◌, ◌%◌, ◌^◌, ◌≤◌, ◌<◌, ◌≡◌, refl, ◌∙◌, ◌⊎◌, some, [], arith, length, length-replicate,
  replicate, Bool, false, not, ◌==◌, one_if, done, fault, sub32, mul32,
}
use native.Mathlib.Nat.{div-le_self}
use mdb.Queue.{BlockSize, Queue, resize, zero_task}
use mdb.Queue.Push.{Stores}
use mdb.Queue.Pushes.{pushes, pushes-Pushed, pushes-fault}
use mdb.Queue.Split.{split_task_lem}
use mdb.Queue.Grid.{ceil_div, blocks, length-blocks}
use mdb.Tasks.{queue_len, create_tasks}

-- What the command line lets through: sides up to 65535, blocks of 8 to 65535.
pub record IsGeometry (width height : ℕ) (grain : BlockSize) : Type 0 where
  pub width_pos : 0 < width
  pub width_max : width ≤ 65535
  pub height_pos : 0 < height
  pub height_max : height ≤ 65535
  pub x_min : 8 ≤ grain.x
  pub x_max : grain.x ≤ 65535
  pub y_min : 8 ≤ grain.y
  pub y_max : grain.y ≤ 65535

-- How many tasks the split makes.
abbrev pub needed : ℕ → ℕ → BlockSize → ℕ
needed width height grain = ceil_div (height - 1) grain.y * ceil_div (width - 1) grain.x

abbrev emptied : Queue → ℕ → Queue
emptied q n = record q {
  tasks = replicate n (some zero_task);
  capacity = n;
  length = 0;
  cur_task_idx = 0;
}

emptied-Stores : (q : Queue) (n : ℕ) → n < 2 ^ 32 → Stores (emptied q n) []
emptied-Stores q n h = record {
  sized = length-replicate n (some zero_task);
  fits = omega arith;
  small = h;
  kept = refl;
}

ceil_div-le : (n g : ℕ) → n < 65535 → 8 ≤ g → ceil_div n g ≤ 8192
ceil_div-le n g h k = grind arith

mul-le-max : (a b : ℕ) → a ≤ 65535 → b ≤ 65535 → a * b ≤ 4294836225
mul-le-max a b h k = grind arith

mul-ge-min : (a b : ℕ) → 8 ≤ a → 8 ≤ b → 64 ≤ a * b
mul-ge-min a b h k = grind arith

mul-le_needed : (a b : ℕ) → a ≤ 8192 → b ≤ 8192 → a * b ≤ 2 ^ 31
mul-le_needed a b h k = grind arith

one_if-le : (b : Bool) → one_if b ≤ 1
one_if-le b = ground arith

module _ {width height : ℕ} {grain : BlockSize} (geo : IsGeometry width height grain) where
  -- No product of `rsched_create_tasks` wraps.
  pub no_wrap :
      (mul32 width height ≡ width * height)
      × (mul32 grain.x grain.y ≡ grain.x * grain.y)
      × (0 < mul32 grain.x grain.y)
  no_wrap = omega (
    arith,
    mul-le-max width height geo.width_max geo.height_max,
    mul-le-max grain.x grain.y geo.x_max geo.y_max,
    mul-ge-min grain.x grain.y geo.x_min geo.y_min,
  )

  queue_len-lt : queue_len width height grain < 2 ^ 32
  unfolding queue_len
  queue_len-lt = omega (
    arith,
    no_wrap,
    mul-le-max width height geo.width_max geo.height_max,
    mul-ge-min grain.x grain.y geo.x_min geo.y_min,
    div-le_self (mul32 width height) (mul32 grain.x grain.y),
    one_if-le (not (mul32 width height % mul32 grain.x grain.y == 0)),
  )

  pub needed-le : needed width height grain ≤ 2 ^ 31
  needed-le =
      mul-le_needed _ _ (ceil_div-le (height - 1) grain.y (omega (arith, geo.height_max)) geo.y_min)
        (ceil_div-le (width - 1) grain.x (omega (arith, geo.width_max)) geo.x_min)

  -- The whole function, as a series of pushes onto an empty queue.
  create_tasks_lem :
      (q : Queue)
      → create_tasks q width height grain
        ≡ pushes
            (emptied q (queue_len width height grain))
            (blocks 0 (width - 1) 0 (height - 1) grain.x grain.y)
  unfolding create_tasks resize
  create_tasks_lem q =
      let w : sub32 width 1 ≡ width - 1 = omega (arith, geo.width_pos, geo.width_max) in
      let h : sub32 height 1 ≡ height - 1 = omega (arith, geo.height_pos, geo.height_max) in
      let nz : (mul32 grain.x grain.y == 0) ≡ false = ground (arith, no_wrap) in
      rw (nz, w, h)
        (split_task_lem _ 0 (width - 1) 0 (height - 1) grain
          (record {
            positive = omega (arith, geo.x_min);
            no_wrap = omega (arith, geo.width_max, geo.x_max);
          })
          (record {
            positive = omega (arith, geo.y_min);
            no_wrap = omega (arith, geo.height_max, geo.y_max);
          }))

  pub length-needed :
      length (blocks 0 (width - 1) 0 (height - 1) grain.x grain.y) ≡ needed width height grain
  length-needed =
      let w : width - 1 - 0 ≡ width - 1 = omega arith in
      let h : height - 1 - 0 ≡ height - 1 = omega arith in rw (length-blocks, w, h)

  -- For sides and blocks that the command line lets through: where the queue's length is enough
  -- for the blocks, or is four at least, so that the array can grow, `rsched_create_tasks`
  -- returns, with exactly the blocks of the grid in the queue, and none taken yet.
  pub create_tasks-done :
      (q : Queue)
      → (needed width height grain ≤ queue_len width height grain)
        ⊎ (4 ≤ queue_len width height grain)
      → (q' : Queue) × (create_tasks q width height grain ≡ done q')
        × Stores q' (blocks 0 (width - 1) 0 (height - 1) grain.x grain.y)
        × (q'.cur_task_idx ≡ 0)
  create_tasks-done q room =
      let p =
        pushes-Pushed (blocks 0 (width - 1) 0 (height - 1) grain.x grain.y)
          (emptied-Stores q (queue_len width height grain) queue_len-lt)
          (omega (arith, length-needed)) (omega (arith, length-needed, needed-le)) in
      (p.queue, create_tasks_lem q ∙ p.returns, p.stores, p.index)

  -- For sides and blocks that the command line lets through: where the queue's length is below
  -- four, and below the number of blocks, `rsched_create_tasks` writes past the array.
  pub create_tasks-fault :
      (q : Queue)
      → queue_len width height grain < 4
      → queue_len width height grain < needed width height grain
      → create_tasks q width height grain ≡ fault
  create_tasks-fault q few short =
      create_tasks_lem q
      ∙ pushes-fault (blocks 0 (width - 1) 0 (height - 1) grain.x grain.y)
          (emptied-Stores q (queue_len width height grain) queue_len-lt) few
          (omega (arith, length-needed))
