-- ===== src/Frame/Yield.antt =====
-- The image that `rsched_host_yield` of sched/rsched.c leaves, with its workers.
use mdb.Base.{
  Bool, ◌-◌, ◌==◌, ◌≤◌, ◌^◌, ◌⊎◌, inl, inr, ℕ, ◌*◌, ◌+◌, ◌<◌, ◌≡◌, ap, ◌∙◌, List, some, arith,
  get_elem?, done,
}
use mdb.Queue.{BlockSize, Queue}
use mdb.Tasks.{create_tasks}
use mdb.Tasks.Create.{IsGeometry}
use mdb.Tasks.Cover.{create_tasks-Stores}
use mdb.Claim.Invariant.{times, countdown}
use mdb.View.{View}
use mdb.Surface.{Surface}
use mdb.Surface.Pixels.{holding, IsValid}
use mdb.Mandelbrot.{Arith}
use mdb.Mandelbrot.Generic
use mdb.Mandelbrot.Native
use mdb.Mandelbrot.Drawn.{EscapesAt, count_ratio}
use mdb.Sched.{success}
use mdb.Crew.{Crew, returned, Reach}
use mdb.Crew.Done.{ran-times, stopped}
use mdb.Frame.{BlockFun, run_tasks, Kernel}
use mdb.Frame.Image.{run_tasks-color, generic-Kernel, native-Kernel, queue-small}

-- The queue that `rsched_create_tasks` has filled for a surface, and the host and workers on it
-- when `rsched_host_yield` has returned success.
module _ {F : Type 0} {width height : ℕ} {grain : BlockSize} (geo : IsGeometry width height grain)
    (q : Queue) {q' : Queue} {weak : Bool} {n : ℕ} {crew : Crew} (order : List ℕ) (wide : 1 < width)
    (high : 1 < height) (stored : create_tasks q width height grain ≡ done q')
    (reach : Reach weak n q'.length crew) (back : crew.host ≡ returned success)
    (same : (j : ℕ) → times j order ≡ times j crew.ran) (s : Surface F) {cells : List F} {x y : ℕ}
    (sw : s.width ≡ width) (sh : s.height ≡ height) (v : IsValid s cells) (hx : x < width)
    (hy : y < height) where
  -- Any kernel that draws a task of the surface draws the image, unless a thread went too far.
  yields-color :
      {block_fun : BlockFun F} {color : ℕ → ℕ → F}
      → Kernel block_fun color (width - 1) (height - 1)
      → (times q'.length crew.ran ≡ 1)
        ⊎ ((cells' : List F) × (run_tasks block_fun q'.tasks order (holding s cells)
              ≡ done (holding s cells'))
            × IsValid s cells'
            × (get_elem? cells' (y * s.width + x) ≡ some (color x y)))
  yields-color kernel =
      let small = queue-small geo (create_tasks-Stores geo q stored) in
      elim (stopped small reach back) [
        | inr over ↦ inl over
        | inl full ↦ inr (
            run_tasks-color geo q order wide high stored
              (λ j. same j ∙ ran-times small reach back j ∙ ap (λ k. times j (countdown k)) full) s
              sw sh v hx hy kernel)
      ]

  -- For a surface of two pixels at least each way, with sides and blocks that the command line lets
  -- through, and any number of workers with a function set and none told to leave: once
  -- `rsched_create_tasks` has stored the tasks of the surface and the host and the workers have
  -- gone on, in any interleaving, until `rsched_host_yield` returns success, either a thread has
  -- run the index behind the last task too, or, in whatever order the tasks that were run since the
  -- last requeue are run by the generic kernel, the runs return, and the surface has at every pixel
  -- the color of the kernel's loop at that pixel.
  pub yield_frame :
      (ar : Arith F) (m : View F)
      → (times q'.length crew.ran ≡ 1)
        ⊎ ((cells' : List F) × (run_tasks
                (Generic.process_block ar m)
                q'.tasks
                order
                (holding s cells)
              ≡ done (holding s cells'))
            × IsValid s cells'
            × (get_elem? cells' (y * s.width + x) ≡ some (Generic.norm_color ar m x y)))
  yield_frame ar m =
      yields-color
        (generic-Kernel ar m (omega (arith, geo.width_max)) (omega (arith, geo.height_max)))

  -- For a surface of two pixels at least each way, with sides and blocks that the command line lets
  -- through, any number of workers with a function set and none told to leave, a bailout below 2^31
  -- from which the floats tell every smaller count, and a view in which the point of any two
  -- coordinates, once out of the disc, stays out and until then is never on the circle: once
  -- `rsched_create_tasks` has stored the tasks of the surface and the host and the workers have
  -- gone on, in any interleaving, until `rsched_host_yield` returns success, either a thread has
  -- run the index behind the last task too, or, in whatever order the tasks that were run since the
  -- last requeue are run by the vector kernel of mdb_native.c, the runs return, and the surface has
  -- at every pixel the count of the generic kernel by the bailout.
  pub native_frame :
      (ar : Arith F) (m : View F)
      → ((i : ℕ) → i ≤ m.bailout → ar.eq (ar.of_nat i) (ar.of_nat m.bailout) ≡ (i == m.bailout))
      → m.bailout < 2 ^ 31
      → ((x y : ℕ) → EscapesAt ar m x y)
      → (times q'.length crew.ran ≡ 1)
        ⊎ ((cells' : List F) × (run_tasks
                (Native.process_block ar m)
                q'.tasks
                order
                (holding s cells)
              ≡ done (holding s cells'))
            × IsValid s cells'
            × (get_elem? cells' (y * s.width + x) ≡ some (count_ratio ar m x y)))
  native_frame ar m exact small esc = yields-color (
      native-Kernel ar m (omega (arith, geo.width_max)) (omega (arith, geo.height_max)) exact small
        esc)
