-- ===== src/Mandelbrot/Scan.antt =====
-- What the loops of a kernel over the rows and columns of a block draw.
use mdb.Base.{
  ℕ, ◌+◌, ◌-◌, ◌*◌, ◌^◌, ◌≤◌, ◌<◌, ◌≡◌, ◌&&◌, Bool, true, false, List, ltb, leb, ◌==◌, arith,
  lt→leb, le→leb, Outcome, for32,
}
use mdb.Surface.{Surface}
use mdb.Surface.Pixels.{holding, IsValid}
use mdb.Surface.Paint.{Painted, repaint, for32-Painted}
use mdb.Mandelbrot.{scan, turns}

-- The columns from `x` up to `x + n`, on the rows from `y0` to `y1`
abbrev pub in_block : ℕ → ℕ → ℕ → ℕ → ℕ → ℕ → Bool
in_block x n y0 y1 px py = (leb x px && ltb px (x + n)) && (leb y0 py && leb py y1)

module _ {F : Type 0} (s : Surface F) (color : ℕ → ℕ → F) (test : ℕ → Bool) (step : ℕ)
    (body : ℕ → ℕ → Surface F → Outcome (Surface F))
    (paints : (y x : ℕ) (cells : List F)
      → test x ≡ true
      → IsValid s cells
      → Painted s color cells
          (λ px py. (py == y) && (leb x px && ltb px (x + step)))
          (body y x (holding s cells)))
    (x0 n y0 y1 : ℕ) (rounds : n < 2 ^ 32) (wide : x0 + n * step < 2 ^ 32)
    (on : (k : ℕ) → k < n → test (x0 + k * step) ≡ true) (off : test (x0 + n * step) ≡ false) where
  row-Painted :
      (y : ℕ) (cells : List F)
      → leb y y1 ≡ true
      → IsValid s cells
      → Painted s color cells
          (λ px py. (leb x0 px && ltb px (x0 + n * step)) && (leb y py && ltb py (y + 1)))
          (for32 test step (body y) turns x0 (holding s cells))
  row-Painted y cells on_row v =
      repaint s color
        (for32-Painted s color test step (body y) (λ px py. px) (λ px py. py == y) (paints y) n
          turns x0 v rounds wide on off)
        (λ px py. ground arith)

  pub scan-Painted :
      {cells : List F}
      → y0 ≤ y1
      → y1 + 1 < 2 ^ 32
      → IsValid s cells
      → Painted s color cells
          (in_block x0 (n * step) y0 y1)
          (scan test step y1 body x0 y0 (holding s cells))
  unfolding scan
  scan-Painted ordered below v =
      repaint s color
        (for32-Painted s color (λ y. leb y y1) 1 (λ y s. for32 test step (body y) turns x0 s)
          (λ px py. py) (λ px py. leb x0 px && ltb px (x0 + n * step)) row-Painted (y1 + 1 - y0)
          turns y0 v (omega arith) (omega arith) (λ k h. le→leb _ _ (omega arith))
          (lt→leb _ _ (omega arith)))
        (λ px py. ground arith)
