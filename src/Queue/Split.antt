-- ===== src/Queue/Split.antt =====
-- `rsched_split_task` pushes the blocks of the grid, and ends.
use mdb.Base.{
  ℕ, zero, suc, ◌+◌, ◌-◌, min, ◌^◌, ◌≤◌, ◌<◌, ◌≡◌, ap, ap₂, dec_lt, arith, lt→ltb, le→ltb, ◌>>=◌,
  add32,
}
use mathlib.Core.Path.{fun_ext}
use mdb.Queue.{BlockSize, Queue, push, split_row, split_rows, split_task}
use mdb.Queue.Pushes.{pushes, pushes-append}
use mdb.Queue.Grid.{spans, grid, row_blocks, blocks, ceil_div, spans_done, spans_more}

-- No block ends past 2^32, so no coordinate wraps.
pub record InWord (x1 g : ℕ) : Type 0 where
  pub positive : 0 < g
  pub no_wrap : x1 + g ≤ 2 ^ 32

split_row_lem :
    (fuel : ℕ) (q : Queue) (x x1 y y11 gx : ℕ)
    → InWord x1 gx
    → x1 - x < fuel
    → split_row fuel q x x1 y y11 gx
      ≡ pushes q (row_blocks (record { from = y; to = y11 }) (spans (ceil_div (x1 - x) gx) x x1 gx))
unfolding split_row pushes
split_row_lem zero q x x1 y y11 gx w h = absurd (omega arith)
split_row_lem (suc fuel) q x x1 y y11 gx w h = elim (dec_lt x x1) [
  | no over ↦ rw (le→ltb x x1 (omega arith), split_row, spans_done x x1 gx w.positive (omega arith))
  | yes more ↦
      (let step : min (add32 x gx) x1 ≡ min (x + gx) x1 = omega (arith, w.no_wrap) in
        rw (lt→ltb x x1 more, split_row, spans_more x x1 gx w.positive more, step)
          (ap (λ k. push q (record { x0 = x; x1 = min (x + gx) x1; y0 = y; y1 = y11 }) >>= k)
            (fun_ext λ q'.
              split_row_lem fuel q' (min (x + gx) x1) x1 y y11 gx w (omega (arith, w.positive)))))
]

split_rows_lem :
    (fuel width : ℕ) (q : Queue) (x0 x1 y y1 : ℕ) (grain : BlockSize)
    → InWord x1 grain.x
    → InWord y1 grain.y
    → x1 - x0 < width
    → y1 - y < fuel
    → split_rows fuel width q x0 x1 y y1 grain
      ≡ pushes q (
          grid
            (spans (ceil_div (y1 - y) grain.y) y y1 grain.y)
            (spans (ceil_div (x1 - x0) grain.x) x0 x1 grain.x))
unfolding split_rows pushes grid
split_rows_lem zero width q x0 x1 y y1 grain wx wy hw h = absurd (omega arith)
split_rows_lem (suc fuel) width q x0 x1 y y1 grain wx wy hw h = elim (dec_lt y y1) [
  | no over ↦
      rw (le→ltb y y1 (omega arith), split_rows, spans_done y y1 grain.y wy.positive (omega arith))
  | yes more ↦
      (let step : min (add32 y grain.y) y1 ≡ min (y + grain.y) y1 = omega (arith, wy.no_wrap) in
        rw
          (
            lt→ltb y y1 more,
            split_rows,
            spans_more y y1 grain.y wy.positive more,
            step,
            pushes-append,
          )
          (ap₂ ◌>>=◌ (split_row_lem width q x0 x1 y _ grain.x wx hw) (
            fun_ext λ q'.
              split_rows_lem fuel width q' x0 x1 (min (y + grain.y) y1) y1 grain wx wy hw
                (omega (arith, wy.positive)))))
]

-- With blocks of positive size, and no coordinate that wraps, `rsched_split_task` ends, and has
-- pushed the blocks of the grid, row by row.
pub split_task_lem :
    (q : Queue) (x0 x1 y0 y1 : ℕ) (grain : BlockSize)
    → InWord x1 grain.x
    → InWord y1 grain.y
    → split_task q x0 x1 y0 y1 grain ≡ pushes q (blocks x0 x1 y0 y1 grain.x grain.y)
unfolding split_task blocks
split_task_lem q x0 x1 y0 y1 grain wx wy =
    split_rows_lem (suc (y1 - y0)) (suc (x1 - x0)) q x0 x1 y0 y1 grain wx wy (omega arith)
      (omega arith)
