-- ===== src/Tasks/Cover.antt =====
-- Which pixels the tasks of `rsched_create_tasks` stand for. The ends of a task are the last
-- column and row that a kernel draws, `x <= x1` and `y <= y1`, but each block begins where the one
-- before it ends.
use mdb.Base.{
  ℕ, ◌+◌, ◌-◌, min, ◌≤◌, ◌<◌, ◌≡◌, subst, inl, inr, dec_le, ◌&&◌, Bool, List, [], ◌∷◌, arith, leb,
  one_if, Outcome, done,
}
use mdb.Queue.{BlockSize, Task, Queue}
use mdb.Queue.Push.{Stores}
use mdb.Queue.Grid.{blocks, hits, hits-blocks, within}
use mdb.Tasks.Blocks.{FitIn, blocks-FitIn}
use mdb.Tasks.{queue_len, create_tasks}
use mdb.Tasks.Create.{IsGeometry, needed, create_tasks-done, create_tasks-fault}

-- The pixels of a task, the ends included
abbrev pub in_task : Task → ℕ → ℕ → Bool
in_task t x y = leb t.x0 x && leb x t.x1 && (leb t.y0 y && leb y t.y1)

-- How many of the tasks draw the pixel (x, y) in a kernel whose loops include the ends.
unfoldable pub drawn : ℕ → ℕ → List Task → ℕ
drawn x y [] = 0
drawn x y (t ∷ ts) = one_if (in_task t x y) + drawn x y ts

-- A pixel on the last column or row is drawn by the blocks that end there.
hit-le-drawn :
    (w h x y : ℕ) (t : Task)
    → 0 < w
    → 0 < h
    → x ≤ w
    → y ≤ h
    → t.x1 ≤ w
    → t.y1 ≤ h
    → one_if (within t.x0 t.x1 (min x (w - 1)) && within t.y0 t.y1 (min y (h - 1)))
      ≤ one_if (in_task t x y)
hit-le-drawn w h x y t pw ph hx hy ex ey = ground arith

hits-le-drawn :
    (w h x y : ℕ) (ts : List Task)
    → 0 < w
    → 0 < h
    → x ≤ w
    → y ≤ h
    → FitIn w h ts
    → hits (min x (w - 1)) (min y (h - 1)) ts ≤ drawn x y ts
unfolding hits drawn
hits-le-drawn w h x y [] pw ph hx hy e = omega arith
hits-le-drawn w h x y (t ∷ ts) pw ph hx hy e = omega (
  arith,
  hits-le-drawn w h x y ts pw ph hx hy e.1,
  hit-le-drawn w h x y t pw ph hx hy e.0.right e.0.bottom,
)

done-injective : {q r : Queue} {o : Outcome Queue} → o ≡ done q → o ≡ done r → q ≡ r
done-injective p q = cc

module _ {width height : ℕ} {grain : BlockSize} (geo : IsGeometry width height grain) where
  -- What the queue stores whenever the function returns.
  pub create_tasks-Stores :
      (q : Queue) {q' : Queue}
      → create_tasks q width height grain ≡ done q'
      → Stores q' (blocks 0 (width - 1) 0 (height - 1) grain.x grain.y)
  create_tasks-Stores q {q'} e = elim (dec_le (needed width height grain) len) [
    | yes enough ↦ stored (create_tasks-done geo q (inl enough))
    | no short ↦ elim (dec_le 4 len) [
      | yes four ↦ stored (create_tasks-done geo q (inr four))
      | no few ↦ cc (create_tasks-fault geo q (omega arith) (omega arith))
    ]
  ]
    where
      len : ℕ
      len = queue_len width height grain

      stored :
          (r : Queue) × (create_tasks q width height grain ≡ done r)
            × Stores r (blocks 0 (width - 1) 0 (height - 1) grain.x grain.y)
            × (r.cur_task_idx ≡ 0)
          → Stores q' (blocks 0 (width - 1) 0 (height - 1) grain.x grain.y)
      stored r =
          subst (λ p. Stores p (blocks 0 (width - 1) 0 (height - 1) grain.x grain.y))
            (done-injective r.1 e) r.2

  blocks-hits :
      (x y : ℕ)
      → hits x y (blocks 0 (width - 1) 0 (height - 1) grain.x grain.y)
        ≡ one_if (within 0 (width - 1) x && within 0 (height - 1) y)
  blocks-hits x y =
      hits-blocks 0 (width - 1) 0 (height - 1) grain.x grain.y x y (omega (arith, geo.x_min))
        (omega (arith, geo.y_min))

  pub blocks-drawn :
      {x y : ℕ}
      → 1 < width
      → 1 < height
      → x < width
      → y < height
      → 1 ≤ drawn x y (blocks 0 (width - 1) 0 (height - 1) grain.x grain.y)
  blocks-drawn {x} {y} wide high hx hy = ground (
    arith,
    blocks-hits (min x (width - 1 - 1)) (min y (height - 1 - 1)),
    hits-le-drawn (width - 1) (height - 1) x y _ (omega arith) (omega arith) (omega arith)
        (omega arith)
        (blocks-FitIn (width - 1) (height - 1) grain.x grain.y (omega (arith, geo.x_min))
          (omega (arith, geo.y_min))),
  )

  -- For sides and blocks that the command line lets through, and a surface of two pixels at least
  -- each way: whenever `rsched_create_tasks` returns, the queue stores tasks such that of any
  -- pixel (x, y) of the surface, as half-open blocks exactly one of them holds it if it lies
  -- before the last column and row, and none otherwise; and a kernel that includes the ends of
  -- each task draws it at least once.
  pub create_tasks-cover :
      (q : Queue) {q' : Queue} {x y : ℕ}
      → 1 < width
      → 1 < height
      → x < width
      → y < height
      → create_tasks q width height grain ≡ done q'
      → (ts : List Task) × Stores q' ts
        × (hits x y ts ≡ one_if (within 0 (width - 1) x && within 0 (height - 1) y))
        × (1 ≤ drawn x y ts)
  create_tasks-cover q {q'} {x} {y} wide high hx hy e = (
    blocks 0 (width - 1) 0 (height - 1) grain.x grain.y,
    create_tasks-Stores q e,
    blocks-hits x y,
    blocks-drawn wide high hx hy,
  )
