-- ===== src/Examples/Frame.antt =====
-- The kernels of kernel_modules/mandelbrot, and the image that the threads make with them.
use mdb.Base.{
  ℕ, zero, suc, ◌+◌, ◌-◌, ◌*◌, ◌/◌, ◌^◌, ◌≤◌, ◌<◌, ◌≡◌, refl, not, ◌&&◌, true, false, none, some,
  List, [], ◌∷◌, arith, ltb, leb, ◌==◌, if◌then◌else◌, get_elem?, replicate, done,
}
use mdb.Queue
use mdb.Tasks.{create_tasks, queue_len}
use mdb.Tasks.Create.{IsGeometry}
use mdb.View
use mdb.Surface
use mdb.Surface.Pixels.{IsValid, holding}
use mdb.Mandelbrot.{Arith}
use mdb.Mandelbrot.Vec8.{Lane}
use mdb.Mandelbrot.Generic
use mdb.Mandelbrot.Generic.{process_block_lem}
use mdb.Mandelbrot.Native
use mdb.Mandelbrot.Drawn.{EscapesAt, count_ratio, values-lane}
use mdb.Mandelbrot.Lanes.{inside, mag2}
use mathlib.Core.Bool.{true≢false}

-- Numbers as tenths, none of them negative.
abbrev pub tenths : Arith ℕ
tenths = record {
  literal = λ d. if d.negative then 0 else d.digits * 10 / 10 ^ d.places;
  of_nat = λ n. n * 10;
  add = λ a b. a + b;
  sub = λ a b. a - b;
  mul = λ a b. if b == 0 then 0 else a * b / 10;
  div = λ a b. a * 10 / b;
  lt = ltb;
  eq = λ a b. a == b;
}

-- A view that has the point 0.5 at each pixel, which leaves the disc in the fourth round of five.
abbrev pub half : View.View ℕ
half = record {
  bailout = 5;
  width = 16;
  height = 8;
  shift_x = 5;
  shift_y = 0;
  scale = 10;
  surf = none;
  width_r = 0;
  height_r = 0;
  aspect_ratio = 10;
}

three_rounds : Generic.count tenths 5 5 0 ≡ 3
unfolding Generic.count
three_rounds = refl

-- What the point does in each round.
half-apart : (n : ℕ) → n < 5 → ltb 40 (mag2 tenths 5 0 n 5 0) ≡ not (inside tenths 5 0 n 5 0)
half-apart zero h = refl
half-apart (suc zero) h = refl
half-apart (suc (suc zero)) h = refl
half-apart (suc (suc (suc zero))) h = refl
half-apart (suc (suc (suc (suc zero)))) h = refl
half-apart (suc (suc (suc (suc (suc n))))) h = absurd (omega arith)

half-stays :
    (n : ℕ) → suc n < 5 → inside tenths 5 0 n 5 0 ≡ false → inside tenths 5 0 (suc n) 5 0 ≡ false
half-stays zero h out = absurd (true≢false out)
half-stays (suc zero) h out = absurd (true≢false out)
half-stays (suc (suc zero)) h out = refl
half-stays (suc (suc (suc zero))) h out = refl
half-stays (suc (suc (suc (suc n)))) h out = absurd (omega arith)

pub half-EscapesAt : (x y : ℕ) → EscapesAt tenths half x y
unfolding Generic.column_x Generic.row_y
half-EscapesAt x y = record {
  apart = λ n h before. half-apart n h;
  stays = λ n h out. half-stays n h out;
}

-- The floats tell each count.
pub ten_times : (i : ℕ) → i ≤ 5 → (i * 10 == 50) ≡ (i == 5)
ten_times i h = ground arith

-- A surface of sixteen by eight, and its two tasks.
abbrev pub eight : Queue.BlockSize
eight = record { x = 8; y = 8 }

pub two_blocks : IsGeometry 16 8 eight
two_blocks = record {
  width_pos = omega arith;
  width_max = omega arith;
  height_pos = omega arith;
  height_max = omega arith;
  x_min = omega arith;
  x_max = omega arith;
  y_min = omega arith;
  y_max = omega arith;
}

abbrev pub queue_of_two : Queue.Queue
queue_of_two = record {
  cur_task_idx = 0;
  tasks =
      some (record { x0 = 0; x1 = 8; y0 = 0; y1 = 7 })
      ∷ some (record { x0 = 8; x1 = 15; y0 = 0; y1 = 7 })
      ∷ [];
  capacity = 2;
  length = 2;
}

pub create_two : create_tasks Queue.init 16 8 eight ≡ done queue_of_two
unfolding create_tasks queue_len Queue.split_task Queue.split_rows Queue.split_row Queue.push
    Queue.init
create_two = refl

-- Two threads that have taken a task each.
abbrev pub blank_cells : List ℕ
blank_cells = replicate 128 9

abbrev pub blank : Surface.Surface ℕ
blank = record { buffer = some blank_cells; width = 16; height = 8; data_need_free = true }

pub blank-IsValid : IsValid blank blank_cells
blank-IsValid = record { size = refl; area = omega arith; wide = omega arith }

values-lane_example : Native.values tenths half 8 7 Lane.l3 ≡ count_ratio tenths half (8 + 3) 7
values-lane_example =
    values-lane tenths half ten_times (omega arith) 8 7 Lane.l3 (omega arith) (half-EscapesAt 11 7)

process_block_lem_example :
    (cells' : List ℕ) × (Generic.process_block tenths half 8 15 0 7 (holding blank blank_cells)
      ≡ done (holding blank cells'))
    × IsValid blank cells'
    × (get_elem? cells' (3 * 16 + 2) ≡ (
        if (leb 8 2 && leb 2 15) && (leb 0 3 && leb 3 7)
        then some (Generic.norm_color tenths half 2 3)
        else get_elem? blank_cells (3 * 16 + 2)))
process_block_lem_example =
    process_block_lem tenths half blank {cells = blank_cells} {px = 2} {py = 3} blank-IsValid
      (omega arith) (omega arith) (omega arith) (omega arith) (omega arith) (omega arith)

-- The value that both kernels give.
six_tenths : Generic.norm_color tenths half 15 7 ≡ count_ratio tenths half 15 7
unfolding Generic.norm_color Generic.count
six_tenths = refl
