-- ===== src/Frame/Image.antt =====
-- The image that the threads make of a queue of tasks with a kernel of kernel_modules/mandelbrot.
use mdb.Base.{
  ℕ, ◌+◌, ◌-◌, ◌*◌, ◌/◌, ◌^◌, ◌≤◌, ◌<◌, ◌≡◌, sym, ap, ◌∙◌, List, some, length, arith, get_elem?,
  take, ◌==◌, done, if◌then◌else◌,
}
use mdb.Queue.{BlockSize, Queue}
use mdb.Queue.Push.{Stores, length-stored}
use mdb.Queue.Grid.{blocks}
use mdb.Tasks.{create_tasks}
use mdb.Tasks.Create.{IsGeometry, needed-le, length-needed}
use mdb.Tasks.Blocks.{blocks-FitIn}
use mdb.Tasks.Cover.{create_tasks-Stores, blocks-drawn}
use mdb.Claim.Invariant.{times, countdown, times-none, times-countdown}
use mdb.View.{View}
use mdb.Surface.{Surface}
use mdb.Surface.Pixels.{holding, IsValid}
use mdb.Mandelbrot.{Arith}
use mdb.Mandelbrot.Scan.{in_block}
use mdb.Mandelbrot.Generic
use mdb.Mandelbrot.Native
use mdb.Mandelbrot.Drawn.{EscapesAt, count_ratio, native-Painted}
use mdb.Frame.{BlockFun, run_tasks, Kernel}
use mdb.Frame.Order.{times-AllBelow, run_tasks-Painted, order-paints}

pub queue-small :
    {width height : ℕ} {grain : BlockSize} {q' : Queue} (geo : IsGeometry width height grain)
    → Stores q' (blocks 0 (width - 1) 0 (height - 1) grain.x grain.y)
    → q'.length + 1 < 2 ^ 32
queue-small geo stores = omega (arith, length-stored stores, length-needed geo, needed-le geo)

-- A side that the command line lets through, and the slack for a vector, fit 32 bits.
module _ {F : Type 0} (ar : Arith F) (m : View F) {w h : ℕ} (wide : w ≤ 65535)
    (high : h ≤ 65535) where
  pub generic-Kernel : Kernel (Generic.process_block ar m) (Generic.norm_color ar m) w h
  generic-Kernel = record {
    shape = λ t. in_block t.x0 (t.x1 + 1 - t.x0) t.y0 t.y1;
    covers = λ t x y f e. ground (arith, f.columns, f.rows);
    draws = λ t s cells f v.
        Generic.process_block-Painted ar m s v f.columns f.rows (omega (arith, f.right))
          (omega (arith, f.bottom));
  }

  pub native-Kernel :
      ((i : ℕ) → i ≤ m.bailout → ar.eq (ar.of_nat i) (ar.of_nat m.bailout) ≡ (i == m.bailout))
      → m.bailout < 2 ^ 31
      → ((x y : ℕ) → EscapesAt ar m x y)
      → Kernel (Native.process_block ar m) (count_ratio ar m) w h
  native-Kernel exact small esc = record {
    shape = λ t. in_block t.x0 (((t.x1 - t.x0) / 8 + 1) * 8) t.y0 t.y1;
    covers = λ t x y f e. ground (arith, f.columns, f.rows);
    draws = λ t s cells f v.
        native-Painted ar m exact small s esc v f.columns f.rows (omega (arith, f.right))
          (omega (arith, f.bottom));
  }

-- The queue that `rsched_create_tasks` has filled for a surface, and any order of its tasks.
module _ {F : Type 0} {width height : ℕ} {grain : BlockSize} (geo : IsGeometry width height grain)
    (q : Queue) {q' : Queue} (order : List ℕ) (wide : 1 < width) (high : 1 < height)
    (stored : create_tasks q width height grain ≡ done q')
    (counts : (j : ℕ) → times j order ≡ times j (countdown q'.length)) (s : Surface F)
    {cells : List F} {x y : ℕ} (sw : s.width ≡ width) (sh : s.height ≡ height) (v : IsValid s cells)
    (hx : x < width) (hy : y < height) where
  pub run_tasks-color :
      {block_fun : BlockFun F} {color : ℕ → ℕ → F}
      → Kernel block_fun color (width - 1) (height - 1)
      → (cells' : List F) × (run_tasks block_fun q'.tasks order (holding s cells)
          ≡ done (holding s cells'))
        × IsValid s cells'
        × (get_elem? cells' (y * s.width + x) ≡ some (color x y))
  run_tasks-color {color} kernel =
      let ts = blocks 0 (width - 1) 0 (height - 1) grain.x grain.y in
      let stores = create_tasks-Stores geo q stored in
      let len : q'.length ≡ length ts = length-stored stores in
      let fit =
        blocks-FitIn (width - 1) (height - 1) grain.x grain.y (omega (arith, geo.x_min))
          (omega (arith, geo.y_min)) in
      let below =
        times-AllBelow (length ts) order
          (λ j h. counts j ∙ times-none j q'.length (omega (arith, len))) in
      let w =
        run_tasks-Painted kernel s q'.tasks ts (ap (λ n. take n q'.tasks) (sym len) ∙ stores.kept)
          fit order below v in
      let all =
        order-paints kernel s ts order x y fit
          (λ k h. omega (arith, counts k, times-countdown k q'.length (omega (arith, len))))
          (blocks-drawn geo wide high hx hy) in
      (
        w.after,
        w.returns,
        w.valid,
        w.shows x y (omega arith) (omega arith)
            ∙ ap (λ b. if b then some (color x y) else get_elem? cells (y * s.width + x)) all,
      )
