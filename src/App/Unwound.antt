-- ===== src/App/Unwound.antt =====
-- `main` gives its parts back in the reverse order, and uses each only while it is there.
use mdb.Base.{
  ℕ, ◌+◌, ◌≡◌, refl, subst, one_if, Bool, true, false, ◌&&◌, ◌||◌, ◌⊎◌, Option, none, some, List,
  [], ◌∷◌, if◌then◌else◌, done, arith,
}
use mdb.Surface
use mdb.Surface.{Block, struct_block, buffer_block}
use mdb.App.{
  Mode, oneshot, benchmark, render, unknown, Status, success, fail, Part, log, kernel, sched, bench,
  surface, Act, take, give, set_size, set_surface, create_tasks, yield, requeue, save, show,
  print_stats, Env, main, run_mode, run_benchmark_mode, run_render_mode, create_surface,
  takes_surface, gives_surface, bench_with, is_oneshot,
}

abbrev pub same : Part → Part → Bool
same log log = true
same kernel kernel = true
same sched sched = true
same bench bench = true
same (surface struct_block) (surface struct_block) = true
same (surface buffer_block) (surface buffer_block) = true
same _ _ = false

abbrev pub there : Part → List Part → Bool
there p [] = false
there p (q ∷ held) = same p q || there p held

-- The parts that an act uses.
abbrev pub used_by : Act → List Part
used_by (take p) = []
used_by (give p) = []
used_by (set_size w h) = kernel ∷ []
used_by set_surface = kernel ∷ surface struct_block ∷ []
used_by (create_tasks w h) = sched ∷ []
used_by (yield ok) = bench ∷ sched ∷ kernel ∷ surface buffer_block ∷ surface struct_block ∷ []
used_by requeue = sched ∷ []
used_by (save ok) = surface buffer_block ∷ surface struct_block ∷ []
used_by show = sched ∷ kernel ∷ surface struct_block ∷ []
used_by print_stats = sched ∷ []

abbrev all_there : List Part → List Part → Bool
all_there [] held = true
all_there (p ∷ ps) held = there p held && all_there ps held

-- One act on the parts held, the latest first: only the latest can be given back, and only what is
-- held can be used.
abbrev pub act : Act → List Part → Option (List Part)
act (take p) held = some (p ∷ held)
act (give p) [] = none
act (give p) (q ∷ held) = if same p q then some held else none
act a held = if all_there (used_by a) held then some held else none

abbrev pub unwind : List Act → List Part → Option (List Part)
unwind [] held = some held
unwind (a ∷ acts) held = elim (act a held) [ none ↦ none | some held' ↦ unwind acts held' ]

-- Whether `main` is to succeed.
abbrev pub succeeds : Env → Bool
succeeds env = env.kernel_made && (elim env.mode [
  | oneshot ↦ true
  | benchmark ↦ true
  | render ↦ env.shown
  | unknown m ↦ false
])

abbrev pub IsUnwound : Env → Type 0
IsUnwound env =
    (r : Status × List Act) × (main env ≡ done r)
    × (r.0 ≡ (if succeeds env then success else fail))
    × (unwind r.1 [] ≡ some [])

abbrev benched : List Part
benched = bench ∷ surface buffer_block ∷ surface struct_block ∷ sched ∷ kernel ∷ log ∷ []

-- The environments with a scheduler, by mode and memory.
abbrev env_of : Env → Mode → Bool → Bool → Bool → Env
env_of env mode kernel_made memory shown = record env {
  mode = mode;
  kernel_made = kernel_made;
  sched_made = true;
  memory = memory;
  shown = shown;
}

-- How often a part is taken, or given back.
abbrev pub takes : Part → List Act → ℕ
takes p [] = 0
takes p (take q ∷ acts) = one_if (same p q) + takes p acts
takes p (_ ∷ acts) = takes p acts

abbrev pub gives : Part → List Act → ℕ
gives p [] = 0
gives p (give q ∷ acts) = one_if (same p q) + gives p acts
gives p (_ ∷ acts) = gives p acts

abbrev pub Leaks : Env → Type 0
Leaks env =
    (acts : List Act) × (main env ≡ done (fail, acts))
    × (takes (surface struct_block) acts ≡ 1)
    × (gives (surface struct_block) acts ≡ 0)

leaks :
    (env : Env) (mode : Mode) (shown : Bool)
    → (mode ≡ oneshot) ⊎ (mode ≡ benchmark)
    → Leaks (env_of env mode true false shown)
unfolding main run_mode run_benchmark_mode run_render_mode create_surface takes_surface
    gives_surface bench_with is_oneshot Surface.create Surface.create_buffer Surface.destroy
leaks env oneshot b e = (_, refl, refl, refl)
leaks env benchmark b e = (_, refl, refl, refl)
leaks env render b e = ground (arith, e)
leaks env (unknown k) b e = ground (arith, e)

-- In the modes that save or measure, where the kernel and the scheduler are made but there is no
-- memory for the pixels: `main` fails, and never gives back the surface's own memory.
main-Leaks :
    (env : Env)
    → (env.mode ≡ oneshot) ⊎ (env.mode ≡ benchmark)
    → env.kernel_made ≡ true
    → env.sched_made ≡ true
    → env.memory ≡ false
    → (acts : List Act) × (main env ≡ done (fail, acts))
      × (takes (surface struct_block) acts ≡ 1)
      × (gives (surface struct_block) acts ≡ 0)
main-Leaks env mode k s m =
    let e : env_of env env.mode true false env.shown ≡ env = ground arith in
    subst Leaks e (leaks env env.mode env.shown mode)
