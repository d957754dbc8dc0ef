-- ===== src/Mandelbrot.antt =====
-- kernel_modules/mandelbrot: the kernels that draw the fractal. Float arithmetic is a parameter,
-- each operation a function of the values of its operands.
pub mod Scan
pub mod Vec8
pub mod Native
pub mod NativeVec
pub mod Lanes
pub mod Drawn
pub mod Agreement
pub mod Avx2
pub mod Avx2Fma
pub mod Columns
pub mod Generic
use mdb.Base.{ℕ, ◌+◌, ◌^◌, Bool, true, false, leb, Outcome, for32}
use mdb.View.{Decimal}

pub record Arith (F : Type 0) : Type 0 where
  pub literal : Decimal → F
  pub of_nat : ℕ → F  -- the value of an integer, converted
  pub add : F → F → F
  pub sub : F → F → F
  pub mul : F → F → F
  pub div : F → F → F
  pub lt : F → F → Bool
  pub eq : F → F → Bool

module _ {F : Type 0} (ar : Arith F) where
  -- `-0.5f`
  abbrev pub center : F
  center = ar.literal (record { negative = true; digits = 5; places = 1 })

  -- `4.0f`
  abbrev pub bound : F
  bound = ar.literal (record { negative = false; digits = 4; places = 0 })

-- As many rounds as a loop on a `uint32_t` can have and end.
abbrev pub turns : ℕ
turns = 2 ^ 32

-- The two loops that each kernel has: over the rows up to `y1`, and on each over columns, `step`
-- at a time.
unfoldable pub scan {ℓ} :
    {S : Type ℓ} → (ℕ → Bool) → ℕ → ℕ → (ℕ → ℕ → S → Outcome S) → ℕ → ℕ → S → Outcome S
unfolding for32
scan test step y1 body x0 y0 s =
    for32 (λ y. leb y y1) 1 (λ y s. for32 test step (body y) turns x0 s) turns y0 s
