-- ===== src/Mandelbrot/Columns.antt =====
-- The columns that the kernels of mdb_avx2.c and mdb_avx2_fma.c leave out.
use mdb.Base.{
  ℕ, zero, suc, ◌+◌, ◌-◌, ◌*◌, ◌/◌, ◌%◌, ◌^◌, ◌≤◌, ◌<◌, ◌≡◌, refl, ap, ◌∙◌, Bool, true, false,
  Option, none, some, List, ltb, leb, arith, length, get_elem?, get_elem?-some, Outcome, done,
  add32, for32, for32_stop, for32_round, lt→ltb, le→ltb, le→leb, lt→leb,
}
use mdb.View.{View}
use mdb.Surface.{Surface, set_pixels}
use mdb.Surface.Pixels.{holding, IsValid}
use mdb.Surface.Paint.{AreColors, set_pixels-Painted}
use mdb.Mandelbrot.{Arith, scan, turns}
use mdb.Mandelbrot.Avx2
use mdb.Mandelbrot.Avx2.{Intrinsics}
use mdb.Mandelbrot.Avx2Fma

module _ {F : Type 0} (s : Surface F) where
  -- The run returns, and the pixels `outside` are as before.
  record Kept (cells : List F) (outside : ℕ → ℕ → Bool) (out : Outcome (Surface F)) : Type 0 where
    after : List F
    returns : out ≡ done (holding s after)
    valid : IsValid s after
    keeps :
        (px py : ℕ)
        → px < s.width
        → py < s.height
        → outside px py ≡ true
        → get_elem? after (py * s.width + px) ≡ get_elem? cells (py * s.width + px)

  or_else : F → Option F → F
  or_else d none = d
  or_else d (some v) = v

  pix_color : F → ℕ → List F → ℕ → ℕ → F
  pix_color d x pix px py = or_else d (get_elem? pix (px - x))

  pix-AreColors :
      (d : F) (x y n : ℕ) (pix : List F)
      → n ≤ length pix
      → AreColors s (pix_color d x pix) x y n pix
  unfolding pix_color or_else
  pix-AreColors d x y n pix h k less =
      let (v, found) = get_elem?-some pix k (omega arith) in
      let same : x + k - x ≡ k = omega arith in rw (same, found)

  set_pixels-Kept :
      (x y n limit : ℕ) (pix : List F) {cells : List F}
      → IsValid s cells
      → 0 < n
      → x + n ≤ limit
      → limit < 2 ^ 32
      → n ≤ length pix
      → Kept cells (λ px py. leb limit px) (set_pixels (holding s cells) x y n pix)
  set_pixels-Kept x y n limit pix v pos le small h =
      let (d, at) = get_elem?-some pix 0 (omega arith) in
      let w =
        set_pixels-Painted s (pix_color d x pix) x y n pix v (omega arith) h
          (pix-AreColors d x y n pix h) in
      record {
        after = w.after;
        returns = w.returns;
        valid = w.valid;
        keeps = λ px py p q o. ground (arith, w.shows px py p q);
      }

  module _ (test : ℕ → Bool) (step limit : ℕ) (body : ℕ → Surface F → Outcome (Surface F))
      (outside : ℕ → ℕ → Bool) (small : limit < 2 ^ 32)
      (body_keeps : (x : ℕ) (cells : List F)
        → x + step ≤ limit
        → IsValid s cells
        → Kept cells outside (body x (holding s cells))) where
    for32-Kept :
        (n fuel x : ℕ) {cells : List F}
        → IsValid s cells
        → n < fuel
        → x + n * step ≤ limit
        → ((k : ℕ) → k < n → test (x + k * step) ≡ true)
        → test (x + n * step) ≡ false
        → Kept cells outside (for32 test step body fuel x (holding s cells))
    for32-Kept n zero x v hf le on off = absurd (omega arith)
    for32-Kept zero (suc fuel) x {cells} v hf le on off =
        let here : x ≡ x + 0 * step = omega arith in
        record {
          after = cells;
          returns = for32_stop test step body fuel (holding s cells) (ap test here ∙ off);
          valid = v;
          keeps = λ px py p q o. refl;
        }
    for32-Kept (suc n) (suc fuel) x {cells} v hf le on off =
        let here : x ≡ x + 0 * step = omega arith in
        let go : test x ≡ true = ap test here ∙ on 0 (omega arith) in
        let shift : (k : ℕ) → x + step + k * step ≡ x + suc k * step = λ k. grind arith in
        let w = body_keeps x cells (omega (arith, shift n)) v in
        let next : add32 x step ≡ x + step = omega (arith, shift n) in
        let ih =
          for32-Kept n fuel (x + step) w.valid (omega arith) (omega (arith, shift n))
            (λ k h. ap test (shift k) ∙ on (suc k) (omega arith)) (ap test (shift n) ∙ off) in
        record {
          after = ih.after;
          returns = for32_round test step body fuel go w.returns next ∙ ih.returns;
          valid = ih.valid;
          keeps = λ px py p q o. ih.keeps px py p q o ∙ w.keeps px py p q o;
        }

  -- A kernel that draws eight columns at a time while x < x1.
  scan-Kept :
      (pixels : ℕ → ℕ → List F) {cells : List F} {x0 x1 y0 y1 : ℕ}
      → ((y x : ℕ) → length (pixels y x) ≡ 8)
      → IsValid s cells
      → x0 ≤ x1
      → y0 ≤ y1
      → x1 + 8 < 2 ^ 32
      → y1 + 1 < 2 ^ 32
      → (x1 - x0) % 8 ≡ 0
      → Kept cells
          (λ px py. leb x1 px)
          (scan
            (λ x. ltb x x1)
            8
            y1
            (λ y x s. set_pixels s x y 8 (pixels y x))
            x0
            y0
            (holding s cells))
  unfolding scan
  scan-Kept pixels {x0 = x0} {x1 = x1} {y0 = y0} {y1 = y1} eight v hx hy bx by whole =
      for32-Kept (λ y. leb y y1) 1 (y1 + 1)
        (λ y s. for32 (λ x. ltb x x1) 8 (λ x s. set_pixels s x y 8 (pixels y x)) turns x0 s)
        (λ px py. leb x1 px) by (λ y cells le v. row y cells v) (y1 + 1 - y0) turns y0 v
        (omega arith) (omega arith) (λ k h. le→leb _ _ (omega arith)) (lt→leb _ _ (omega arith))
    where
      row :
          (y : ℕ) (cells : List F)
          → IsValid s cells
          → Kept cells
              (λ px py. leb x1 px)
              (for32
                (λ x. ltb x x1)
                8
                (λ x s. set_pixels s x y 8 (pixels y x))
                turns
                x0
                (holding s cells))
      row y cells v =
          for32-Kept (λ x. ltb x x1) 8 x1 (λ x s. set_pixels s x y 8 (pixels y x))
            (λ px py. leb x1 px) (omega arith)
            (λ x cells le v.
              set_pixels-Kept x y 8 x1 (pixels y x) v (omega arith) le (omega arith)
                (omega (arith, eight y x)))
            ((x1 - x0) / 8) turns x0 v (omega arith) (omega arith) (λ k h. lt→ltb _ _ (omega arith))
            (le→ltb _ _ (omega arith))

module _ {F : Type 0} {V : Type 0} (ar : Arith F) (mm : Intrinsics F V)
    (eight : (v : V) → length (mm.store_ps v) ≡ 8) (m : View F) (s : Surface F) {cells : List F}
    {x0 x1 y0 y1 px py : ℕ} (v : IsValid s cells) (hx : x0 ≤ x1) (hy : y0 ≤ y1)
    (bx : x1 + 8 < 2 ^ 32) (by : y1 + 1 < 2 ^ 32) (whole : (x1 - x0) % 8 ≡ 0) (p : px < s.width)
    (q : py < s.height) (o : x1 ≤ px) where
  -- For intrinsics that store eight values, and a block of 32-bit corners in order with a whole
  -- number of vectors before its last column: the AVX2 kernel returns, and leaves every pixel from
  -- the last column on as it was, that of the last column itself too.
  pub last_column_kept :
      (cells' : List F) × (Avx2.process_block ar mm m x0 x1 y0 y1 (holding s cells)
        ≡ done (holding s cells'))
      × IsValid s cells'
      × (get_elem? cells' (py * s.width + px) ≡ get_elem? cells (py * s.width + px))
  unfolding Avx2.process_block Avx2.pixels Avx2.pixels_of
  last_column_kept =
      let w = scan-Kept s (Avx2.pixels ar mm m) (λ y x. eight _) v hx hy bx by whole in
      (w.after, w.returns, w.valid, w.keeps px py p q (le→leb x1 px o))

  pub last_column_kept_fma :
      (cells' : List F) × (Avx2Fma.process_block ar mm m x0 x1 y0 y1 (holding s cells)
        ≡ done (holding s cells'))
      × IsValid s cells'
      × (get_elem? cells' (py * s.width + px) ≡ get_elem? cells (py * s.width + px))
  unfolding Avx2Fma.process_block Avx2Fma.pixels Avx2.pixels_of
  last_column_kept_fma =
      let w = scan-Kept s (Avx2Fma.pixels ar mm m) (λ y x. eight _) v hx hy bx by whole in
      (w.after, w.returns, w.valid, w.keeps px py p q (le→leb x1 px o))
