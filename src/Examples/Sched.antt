-- ===== src/Examples/Sched.antt =====
-- The task queue of sched/rsched_queue.c, and the tasks of sched/rsched.c.
use mdb.Base.{◌≤◌, ◌≡◌, refl, inl, List, [], ◌∷◌, some, arith, done, fault, one_if, ◌&&◌}
use mdb.Queue.{Queue, Task, BlockSize, init, push, split_task, split_rows, split_row, zero_task}
use mdb.Queue.Push.{Stores}
use mdb.Queue.Pushes.{pushes}
use mdb.Queue.Grid.{blocks, hits, within}
use mdb.Queue.Split.{split_task_lem}
use mdb.Tasks.{queue_len, create_tasks}
use mdb.Tasks.Create.{IsGeometry, create_tasks-done, create_tasks-fault}
use mdb.Tasks.Cover.{drawn, create_tasks-cover}

abbrev corner : Task
corner = record { x0 = 0; x1 = 8; y0 = 0; y1 = 8 }

abbrev beside : Task
beside = record { x0 = 8; x1 = 15; y0 = 0; y1 = 8 }

-- A queue of one task in an array of two cells, and a full one of one cell.
abbrev half_full : Queue
half_full = record {
  cur_task_idx = 0;
  tasks = some corner ∷ some zero_task ∷ [];
  capacity = 2;
  length = 1;
}

abbrev full_of_one : Queue
full_of_one = record { cur_task_idx = 0; tasks = some corner ∷ []; capacity = 1; length = 1 }

-- A full one of four cells, which can grow.
abbrev full_of_four : Queue
full_of_four = record {
  cur_task_idx = 0;
  tasks = some corner ∷ some corner ∷ some corner ∷ some corner ∷ [];
  capacity = 4;
  length = 4;
}

half_full-Stores : Stores half_full (corner ∷ [])
half_full-Stores = record { sized = refl; fits = omega arith; small = omega arith; kept = refl }

full_of_one-Stores : Stores full_of_one (corner ∷ [])
full_of_one-Stores = record { sized = refl; fits = omega arith; small = omega arith; kept = refl }

full_of_four-Stores : Stores full_of_four (corner ∷ corner ∷ corner ∷ corner ∷ [])
full_of_four-Stores = record { sized = refl; fits = omega arith; small = omega arith; kept = refl }

abbrev eight : BlockSize
eight = record { x = 8; y = 8 }

split_task_lem_example : split_task init 0 15 0 15 eight ≡ pushes init (blocks 0 15 0 15 8 8)
split_task_lem_example =
    split_task_lem init 0 15 0 15 eight (record { positive = omega arith; no_wrap = omega arith })
      (record { positive = omega arith; no_wrap = omega arith })

-- Sixteen by sixteen pixels in four blocks.
sixteen : IsGeometry 16 16 eight
sixteen = record {
  width_pos = omega arith;
  width_max = omega arith;
  height_pos = omega arith;
  height_max = omega arith;
  x_min = omega arith;
  x_max = omega arith;
  y_min = omega arith;
  y_max = omega arith;
}

create_tasks-done_example :
    (q : Queue) × (create_tasks init 16 16 eight ≡ done q)
    × Stores q (blocks 0 15 0 15 8 8)
    × (q.cur_task_idx ≡ 0)
unfolding queue_len
create_tasks-done_example = create_tasks-done sixteen init (inl (omega arith))

-- The queue that `rsched_create_tasks` makes for them.
abbrev four_tasks : List Task
four_tasks =
    record { x0 = 0; x1 = 8; y0 = 0; y1 = 8 }
    ∷ record { x0 = 8; x1 = 15; y0 = 0; y1 = 8 }
    ∷ record { x0 = 0; x1 = 8; y0 = 8; y1 = 15 }
    ∷ record { x0 = 8; x1 = 15; y0 = 8; y1 = 15 }
    ∷ []

abbrev queue_of_four : Queue
queue_of_four = record {
  cur_task_idx = 0;
  tasks =
      some (record { x0 = 0; x1 = 8; y0 = 0; y1 = 8 })
      ∷ some (record { x0 = 8; x1 = 15; y0 = 0; y1 = 8 })
      ∷ some (record { x0 = 0; x1 = 8; y0 = 8; y1 = 15 })
      ∷ some (record { x0 = 8; x1 = 15; y0 = 8; y1 = 15 })
      ∷ [];
  capacity = 4;
  length = 4;
}

create_four : create_tasks init 16 16 eight ≡ done queue_of_four
unfolding create_tasks queue_len split_task split_rows split_row push init
create_four = refl

create_tasks-cover_example :
    (ts : List Task) × Stores queue_of_four ts
    × (hits 15 3 ts ≡ one_if (within 0 15 15 && within 0 15 3))
    × (1 ≤ drawn 15 3 ts)
create_tasks-cover_example =
    create_tasks-cover sixteen init (omega arith) (omega arith) (omega arith) (omega arith)
      create_four

-- 512 by 512 pixels in blocks of 300 by 300: three cells for four blocks.
abbrev large : BlockSize
large = record { x = 300; y = 300 }

large_blocks : IsGeometry 512 512 large
large_blocks = record {
  width_pos = omega arith;
  width_max = omega arith;
  height_pos = omega arith;
  height_max = omega arith;
  x_min = omega arith;
  x_max = omega arith;
  y_min = omega arith;
  y_max = omega arith;
}

create_tasks-fault_example : create_tasks init 512 512 large ≡ fault
unfolding queue_len
create_tasks-fault_example = create_tasks-fault large_blocks init (omega arith) (omega arith)
