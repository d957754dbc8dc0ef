-- ===== src/Tasks.antt =====
-- sched/rsched.c, `rsched_create_tasks`: the tasks for one surface. The queue is all that the
-- function touches of the scheduler, and stands for it.
pub mod Create
pub mod Blocks
pub mod Cover
use Prim.Native.Nat.{bit_or}
use mdb.Base.{
  ℕ, ◌+◌, ◌/◌, ◌%◌, not, ◌==◌, if◌then◌else◌, one_if, Outcome, fault, ◌>>=◌, sub32, mul32,
}
use mdb.Queue.{BlockSize, Queue, que_discard, que_zero, resize, split_task}

-- The length given to the queue: how many blocks make up the area, rounded up.
unfoldable pub queue_len : ℕ → ℕ → BlockSize → ℕ
queue_len width height grain =
    let wxh = mul32 width height in
    let grain2 = mul32 grain.x grain.y in wxh / grain2 + one_if (not (wxh % grain2 == 0))

-- A division by zero is a fault.
unfoldable pub create_tasks : Queue → ℕ → ℕ → BlockSize → Outcome Queue
unfolding queue_len
create_tasks q width height grain =
    if mul32 grain.x grain.y == 0
    then fault
    else resize q (queue_len width height grain) (bit_or que_discard que_zero) >>= λ q'.
        split_task q' 0 (sub32 width 1) 0 (sub32 height 1) grain
