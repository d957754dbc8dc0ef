-- ===== src/App.antt =====
-- app/main.c, `main` and its modes: the parts of the program in the order in which they are made
-- and given back. What each call of another component comes to is an input.
pub mod Unwound
use mdb.Base.{
  ℕ, zero, suc, ◌+◌, Bool, true, false, Option, none, some, List, [], ◌∷◌, ◌++◌, map, if◌then◌else◌,
  Outcome, done, fault, ◌>>=◌,
}
use mdb.Surface
use mdb.Surface.{Block, struct_block, buffer_block}

pub data Mode : Type 0 where
  oneshot benchmark render : Mode
  unknown : (mode : ℕ) → Mode

pub data Status : Type 0 where
  success fail : Status

pub data Part : Type 0 where
  log kernel sched bench : Part
  surface : Block → Part

pub data Act : Type 0 where
  take : Part → Act
  give : Part → Act
  set_size : (width height : ℕ) → Act  -- `mdb_kernel_set_size`
  set_surface : Act  -- `mdb_kernel_set_surface`
  create_tasks : (width height : ℕ) → Act  -- `rsched_create_tasks`
  yield : (ok : Bool) → Act  -- `rsched_host_yield`
  requeue : Act  -- `rsched_requeue`
  save : (ok : Bool) → Act  -- `surface_save_image_hdr`
  show : Act  -- `render_run`
  print_stats : Act

-- The arguments that `main` reads itself, and what its calls come to.
pub record Env : Type 0 where
  pub mode : Mode
  pub width : ℕ
  pub height : ℕ
  pub benchmark_runs : ℕ
  pub kernel_made : Bool  -- `mdb_kernel_create`
  pub sched_made : Bool  -- `rsched_create`
  pub memory : Bool  -- `malloc_aligned`, for the buffer of the surface
  pub shown : Bool  -- `render_run`
  pub yields : ℕ → Bool  -- `rsched_host_yield`, in each run
  pub saved : Bool  -- `surface_save_image_hdr`

-- The surface of `run_benchmark_mode` or `run_render_mode`, of floats that are all alike here.
unfoldable pub create_surface : Env → ℕ → Surface.Created Bool
create_surface env flags = Surface.create false env.memory env.width env.height flags

unfoldable pub takes_surface : Surface.Created Bool → List Act
takes_surface c = map (λ b. take (surface b)) c.allocated

unfoldable pub gives_surface : Surface.Surface Bool → List Act
gives_surface s = map (λ b. give (surface b)) (Surface.destroy (some s))

unfoldable pub is_oneshot : Mode → Bool
is_oneshot oneshot = true
is_oneshot _ = false

-- The loop of `benchmark_run_kernel`, with the runs left: it does not look at what a call returns.
unfoldable pub run_kernel : (ℕ → Bool) → ℕ → ℕ → List Act
run_kernel yields zero run = []
run_kernel yields (suc runs) run = yield (yields run) ∷ requeue ∷ run_kernel yields runs (run + 1)

-- With a surface made. A failed save is only told.
unfoldable pub bench_with : Env → Surface.Surface Bool → List Act
unfolding is_oneshot gives_surface run_kernel
bench_with env s =
    set_size env.width env.height
    ∷ set_surface
    ∷ take bench
    ∷ (run_kernel env.yields (if is_oneshot env.mode then 1 else env.benchmark_runs) 0
        ++ ((if is_oneshot env.mode then save env.saved ∷ [] else [])
            ++ (give bench ∷ gives_surface s)))

unfoldable pub run_benchmark_mode : Env → Status × List Act
unfolding create_surface takes_surface bench_with
run_benchmark_mode env =
    let c = create_surface env (Surface.buffer_create + Surface.buffer_f32) in
    elim c.status [
      | Surface.Status.fail ↦ (fail, takes_surface c)
      | Surface.Status.success ↦ (success, takes_surface c ++ bench_with env c.surface)
    ]

unfoldable pub run_render_mode : Env → Status × List Act
unfolding create_surface takes_surface gives_surface
run_render_mode env =
    let c = create_surface env (Surface.buffer_ext + Surface.buffer_f32) in
    elim c.status [
      | Surface.Status.fail ↦ (fail, takes_surface c)
      | Surface.Status.success ↦ (
        if env.shown then success else fail,
        takes_surface c
            ++ (set_size env.width env.height ∷ set_surface ∷ show ∷ gives_surface c.surface),
      )
    ]

-- The `switch` of `main`.
unfoldable pub run_mode : Env → Status × List Act
unfolding run_benchmark_mode run_render_mode
run_mode env = elim env.mode [
  | oneshot ↦ run_benchmark_mode env
  | benchmark ↦ run_benchmark_mode env
  | render ↦ run_render_mode env
  | unknown mode ↦ (fail, [])
]

-- The exit status and what has been done. Without a scheduler its null pointer is followed.
unfoldable pub main : Env → Outcome (Status × List Act)
unfolding run_mode
main env =
    if env.kernel_made
    then (if env.sched_made
        then (let r = run_mode env in
            done (
              r.0,
              take log
                  ∷ take kernel
                  ∷ take sched
                  ∷ create_tasks env.width env.height
                  ∷ (r.1 ++ (print_stats ∷ give sched ∷ give kernel ∷ give log ∷ [])),
            ))
        else fault)
    else done (fail, take log ∷ give log ∷ [])
