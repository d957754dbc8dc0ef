-- ===== src/Args/Geometry.antt =====
-- From the command line to the tasks: main hands the sides of the surface and of the blocks to
-- `rsched_create_tasks`.
use mdb.Base.{ℕ, ◌≤◌, ◌<◌, ◌≡◌, inr, List, arith, done}
use mdb.Args.{ok}
use mdb.Args.Options.{Arguments, Opt, args_parse}
use mdb.Args.Bounds.{IsSane, args_parse-IsSane}
use mdb.Queue.{BlockSize, Queue, Task}
use mdb.Queue.Push.{Stores}
use mdb.Tasks.{queue_len, create_tasks}
use mdb.Tasks.Create.{IsGeometry, create_tasks-done}
use mdb.Tasks.Cover.{drawn, create_tasks-cover}

abbrev pub grain_of : Arguments → BlockSize
grain_of a = record { x = a.block_size_x; y = a.block_size_y }

IsSane-IsGeometry : (a : Arguments) → IsSane a → IsGeometry a.width a.height (grain_of a)
IsSane-IsGeometry a s = record {
  width_pos = omega (arith, s.width);
  width_max = s.width.1;
  height_pos = omega (arith, s.height);
  height_max = s.height.1;
  x_min = s.block_x.0;
  x_max = s.block_x.1;
  y_min = s.block_y.0;
  y_max = s.block_y.1;
}

-- Whatever command line is accepted, as long as the queue for its blocks has four cells at least:
-- the tasks are made, none of them taken yet, and a kernel that includes the ends of each draws any
-- pixel (x, y) of the surface.
pub args_parse-drawn :
    (os : List Opt) (q : Queue) {a : Arguments} {x y : ℕ}
    → args_parse os ≡ ok a
    → 4 ≤ queue_len a.width a.height (grain_of a)
    → x < a.width
    → y < a.height
    → (q' : Queue) × (ts : List Task) × (create_tasks q a.width a.height (grain_of a) ≡ done q')
      × Stores q' ts
      × (q'.cur_task_idx ≡ 0)
      × (1 ≤ drawn x y ts)
args_parse-drawn os q {a} {x} {y} e four hx hy =
    let s = args_parse-IsSane os e in
    let geo = IsSane-IsGeometry a s in
    let r = create_tasks-done geo q (inr four) in
    let c =
      create_tasks-cover geo q {q' = r.0} {x = x} {y = y} (omega (arith, s.width))
        (omega (arith, s.height)) hx hy r.1 in
    (r.0, c.0, r.1, c.1, r.3, c.3)
