-- ===== src/Frame/Order.antt =====
-- Running the tasks of a queue in any order.
use mdb.Base.{
  ℕ, suc, ◌≤◌, ◌<◌, ◌≡◌, sym, ap, ◌∙◌, ◌||◌, Bool, true, false, Option, none, some, List, [], ◌∷◌,
  map, arith, length, get_elem?, get_elem?-take, get_elem?-map, take, ℕ_discrete, dec_lt,
  Bool-cases, inl, inr,
}
use mathlib.Core.Option
use mdb.Queue.{Task}
use mdb.Surface.{Surface}
use mdb.Surface.Pixels.{holding, IsValid}
use mdb.Surface.Paint.{Painted, no_pixels, in_turn}
use mdb.Tasks.Blocks.{FitIn, get_elem?-Fits}
use mdb.Tasks.Cover.{in_task, drawn}
use mdb.Claim.Invariant.{times}
use mdb.Frame.{BlockFun, run_task, run_tasks, Kernel}

abbrev pub AllBelow : ℕ → List ℕ → Type 0
AllBelow len [] = Unit
AllBelow len (k ∷ ks) = (k < len) × AllBelow len ks

-- The indices of a list that names none beyond its bound.
pub times-AllBelow :
    (len : ℕ) (order : List ℕ) → ((j : ℕ) → len ≤ j → times j order ≡ 0) → AllBelow len order
times-AllBelow len [] beyond = tt
times-AllBelow len (k ∷ ks) beyond = (
  elim (dec_lt k len) [
    | yes below ↦ below
    | no above ↦ absurd (ground (arith, beyond k (omega arith)))
  ],
  times-AllBelow len ks (λ j h. ground (arith, beyond j h)),
)

module _ {F : Type 0} {block_fun : BlockFun F} {color : ℕ → ℕ → F} {w h : ℕ}
    (kernel : Kernel block_fun color w h) (s : Surface F) where
  shape_at : List Task → ℕ → ℕ → ℕ → Bool
  shape_at ts k x y = elim (get_elem? ts k) [ none ↦ false | some t ↦ kernel.shape t x y ]

  pub painted_by : List Task → List ℕ → ℕ → ℕ → Bool
  unfolding shape_at
  painted_by ts [] x y = false
  painted_by ts (k ∷ ks) x y = shape_at ts k x y || painted_by ts ks x y

  module _ (tasks : List (Option Task)) (ts : List Task)
      (stored : take (length ts) tasks ≡ map some ts) (fit : FitIn w h ts) where
    run_task-Painted :
        (k : ℕ) (cells : List F)
        → k < length ts
        → IsValid s cells
        → Painted s color cells (shape_at ts k) (run_task block_fun tasks k (holding s cells))
    unfolding run_task shape_at
    run_task-Painted k cells less v =
        let (t, found, fits) = get_elem?-Fits w h ts k fit less in
        let slot : get_elem? tasks k ≡ some (some t) =
          sym (get_elem?-take (length ts) tasks k less)
          ∙ ap (λ l. get_elem? l k) stored
          ∙ get_elem?-map some ts k
          ∙ ap (Option.map some) found in
        rw (shape_at, found, run_task, slot) (kernel.draws t s cells fits v)

    pub run_tasks-Painted :
        (order : List ℕ) {cells : List F}
        → AllBelow (length ts) order
        → IsValid s cells
        → Painted s color cells
            (painted_by ts order)
            (run_tasks block_fun tasks order (holding s cells))
    unfolding run_tasks painted_by
    run_tasks-Painted [] {cells} below v = no_pixels s color v
    run_tasks-Painted (k ∷ ks) {cells} below v =
        let first = run_task-Painted k cells below.0 v in
        in_turn s color (run_tasks block_fun tasks ks) first
          (run_tasks-Painted ks below.1 first.valid)

  -- A pixel of a task whose index is run is painted.
  run-painted :
      (ts : List Task) (order : List ℕ) (k x y : ℕ)
      → 1 ≤ times k order
      → shape_at ts k x y ≡ true
      → painted_by ts order x y ≡ true
  unfolding painted_by
  run-painted ts [] k x y h e = absurd (omega arith)
  run-painted ts (j ∷ js) k x y h e = elim (ℕ_discrete j k) [
    | yes same ↦
        let here : shape_at ts j x y ≡ true = ap (λ j. shape_at ts j x y) same ∙ e in rw here
    | no other ↦ let there = run-painted ts js k x y (ground arith) e in ground (arith, there)
  ]

  -- A pixel that tasks draw lies in one of them.
  drawn-shape :
      (ts : List Task) (x y : ℕ)
      → FitIn w h ts
      → 1 ≤ drawn x y ts
      → (k : ℕ) × (k < length ts) × (shape_at ts k x y ≡ true)
  unfolding drawn shape_at
  drawn-shape [] x y fit e = absurd (omega arith)
  drawn-shape (t ∷ ts) x y fit e = elim (Bool-cases (in_task t x y)) [
    | inl on ↦ (0, omega arith, kernel.covers t x y fit.0 on)
    | inr off ↦
        let (k, less, found) = drawn-shape ts x y fit.1 (ground arith) in
        (suc k, omega arith, found)
  ]

  pub order-paints :
      (ts : List Task) (order : List ℕ) (x y : ℕ)
      → FitIn w h ts
      → ((k : ℕ) → k < length ts → 1 ≤ times k order)
      → 1 ≤ drawn x y ts
      → painted_by ts order x y ≡ true
  order-paints ts order x y fit all e =
      let (k, less, found) = drawn-shape ts x y fit e in
      run-painted ts order k x y (all k less) found
