-- ===== src/Mandelbrot/Generic.antt =====
-- kernel_modules/mandelbrot/mdb_generic.c: the kernel without vectors.
use mdb.Base.{
  ℕ, zero, suc, ◌+◌, ◌-◌, ◌*◌, ◌^◌, ◌≤◌, ◌<◌, ◌≡◌, ◌&&◌, true, false, List, [], ◌∷◌, leb, ◌==◌,
  if◌then◌else◌, arith, lt→leb, le→leb, Outcome, leb→le, some, ap, get_elem?, done,
}
use mdb.View.{View}
use mdb.Surface.{Surface, set_pixels}
use mdb.Surface.Pixels.{holding, IsValid}
use mdb.Surface.Paint.{AreColors, repaint, Painted, set_pixels-Painted}
use mdb.Mandelbrot.{Arith, center, bound, scan}
use mdb.Mandelbrot.Scan.{in_block, scan-Painted}

module _ {F : Type 0} (ar : Arith F) where
  -- `cy` of a row, and `cx` of a column
  unfoldable pub row_y : View F → ℕ → F
  row_y m y =
      ar.add (ar.mul (ar.add (ar.mul (ar.of_nat y) m.height_r) (center ar)) m.scale) m.shift_y

  unfoldable pub column_x : View F → ℕ → F
  column_x m x =
      ar.add
        (ar.mul (ar.add (ar.mul (ar.mul (ar.of_nat x) m.width_r) m.aspect_ratio) (center ar))
          m.scale)
        m.shift_x

  -- The loop over `i`, with the rounds that are left until `bailout`: the value of `i` after it.
  unfoldable pub probe : ℕ → F → F → F → F → ℕ → ℕ
  probe zero cx cy zx zy i = i
  probe (suc rounds) cx cy zx zy i =
      let zxzy = ar.mul zx zy in
      let zx' = ar.add (ar.sub (ar.mul zx zx) (ar.mul zy zy)) cx in
      let zy' = ar.add (ar.add zxzy zxzy) cy in
      let mag2 = ar.add (ar.mul zx' zx') (ar.mul zy' zy') in
      elim (ar.lt (bound ar) mag2) [ true ↦ i | false ↦ probe rounds cx cy zx' zy' (i + 1) ]

  -- `i`, reset to 0 when the loop has gone through
  unfoldable pub count : ℕ → F → F → ℕ
  unfolding probe
  count bailout cx cy = let i = probe bailout cx cy cx cy 0 in if i == bailout then 0 else i

  unfoldable pub norm_color : View F → ℕ → ℕ → F
  unfolding count row_y column_x
  norm_color m x y =
      ar.mul (ar.of_nat (count m.bailout (column_x m x) (row_y m y)))
        (ar.div (ar.of_nat 1) (ar.of_nat m.bailout))

  abbrev pub draw : View F → ℕ → ℕ → Surface F → Outcome (Surface F)
  draw m y x s = set_pixels s x y 1 (norm_color m x y ∷ [])

  unfoldable pub process_block : View F → ℕ → ℕ → ℕ → ℕ → Surface F → Outcome (Surface F)
  unfolding scan
  process_block m x0 x1 y0 y1 s = scan (λ x. leb x x1) 1 y1 (draw m) x0 y0 s

  module _ (m : View F) (s : Surface F) where
    pixel-AreColors : (y x : ℕ) → AreColors s (norm_color m) x y 1 (norm_color m x y ∷ [])
    pixel-AreColors y x zero h =
        let e : x ≡ x + 0 = omega arith in ap (λ x. some (norm_color m x y)) e
    pixel-AreColors y x (suc k) h = absurd (omega arith)

    pub process_block-Painted :
        {cells : List F} {x0 x1 y0 y1 : ℕ}
        → IsValid s cells
        → x0 ≤ x1
        → y0 ≤ y1
        → x1 + 1 < 2 ^ 32
        → y1 + 1 < 2 ^ 32
        → Painted s
            (norm_color m)
            cells
            (in_block x0 (x1 + 1 - x0) y0 y1)
            (process_block m x0 x1 y0 y1 (holding s cells))
    unfolding process_block
    process_block-Painted {x0} {x1} {y0} {y1} v hx hy bx by =
        repaint s (norm_color m)
          (scan-Painted s (norm_color m) (λ x. leb x x1) 1 (draw m)
            (λ y x cells on v.
              set_pixels-Painted s (norm_color m) x y 1 (norm_color m x y ∷ []) v
                (omega (arith, leb→le x x1 on)) (omega arith) (pixel-AreColors y x))
            x0 (x1 + 1 - x0) y0 y1 (omega arith) (omega arith) (λ k h. le→leb _ _ (omega arith))
            (lt→leb _ _ (omega arith)) hy by v)
          (λ px py. ground arith)

    -- For a block of 32-bit corners in order, the last of them below 2^32 - 1, and a surface with its
    -- buffer: the generic kernel returns, writes inside the buffer only, and a pixel (px, py) of the
    -- surface then has the color of its coordinates if it lies in the block, the last column and row
    -- included, and is as before otherwise.
    pub process_block_lem :
        {cells : List F} {x0 x1 y0 y1 px py : ℕ}
        → IsValid s cells
        → x0 ≤ x1
        → y0 ≤ y1
        → x1 + 1 < 2 ^ 32
        → y1 + 1 < 2 ^ 32
        → px < s.width
        → py < s.height
        → (cells' : List F) × (process_block m x0 x1 y0 y1 (holding s cells)
            ≡ done (holding s cells'))
          × IsValid s cells'
          × (get_elem? cells' (py * s.width + px) ≡ (
              if (leb x0 px && leb px x1) && (leb y0 py && leb py y1)
              then some (norm_color m px py)
              else get_elem? cells (py * s.width + px)))
    process_block_lem {px = px} {py = py} v hx hy bx by p q =
        let w = process_block-Painted v hx hy bx by in
        (w.after, w.returns, w.valid, ground (arith, w.shows px py p q))
