-- ===== src/Mandelbrot/Native.antt =====
-- kernel_modules/mandelbrot/mdb_native.c: the kernel on vectors of eight columns.
use mdb.Base.{
  ℕ, zero, suc, ◌+◌, ◌-◌, ◌*◌, ◌/◌, ◌^◌, ◌≤◌, ◌<◌, true, false, List, leb, arith, lt→leb, le→leb,
  leb→le, add32, Outcome,
}
use mdb.View.{View}
use mdb.Surface.{Surface, set_pixels}
use mdb.Surface.Pixels.{holding, IsValid}
use mdb.Surface.Paint.{AreColors, Painted, set_pixels-Painted}
use mdb.Mandelbrot.{Arith, center, bound, scan}
use mdb.Mandelbrot.Scan.{in_block, scan-Painted}
use mdb.Mandelbrot.Vec8.{
  Vec8, lanes, vec8f_set_s, vec8f_set1_s, vec8i_set1_s, vec8i_add2_mask_s, vec8i_and2_v,
  vec8i_test_zf, vec8f_mul2_v, vec8f_add2_v, vec8f_div2_s, vec8f_mul3_v, vec8f_add3_v, vec8f_sub3_v,
  vec8f_lt3_mask_s, vec8i_ne3_mask_s, vec8i_cvt2_vec8f,
}

module _ {F : Type 0} (ar : Arith F) where
  -- The loop over `i`, with the rounds that are left until `bailout`: the value of `vi` after it.
  unfoldable pub probe : ℕ → Vec8 F → Vec8 F → Vec8 F → Vec8 F → Vec8 ℕ → Vec8 ℕ
  unfolding vec8f_mul3_v vec8f_add3_v vec8f_sub3_v vec8f_lt3_mask_s vec8i_test_zf vec8i_add2_mask_s
  probe zero cx cy zx zy vi = vi
  probe (suc rounds) cx cy zx zy vi =
      let zxzy = vec8f_mul3_v ar zx zy in
      let zx' =
        vec8f_add3_v ar (vec8f_sub3_v ar (vec8f_mul3_v ar zx zx) (vec8f_mul3_v ar zy zy)) cx in
      let zy' = vec8f_add3_v ar (vec8f_add3_v ar zxzy zxzy) cy in
      let mag2 = vec8f_add3_v ar (vec8f_mul3_v ar zx' zx') (vec8f_mul3_v ar zy' zy') in
      let mask = vec8f_lt3_mask_s ar mag2 (bound ar) in
      elim (vec8i_test_zf mask) [
        | false ↦ probe rounds cx cy zx' zy' (vec8i_add2_mask_s vi mask 1)
        | true ↦ vi
      ]

  -- `cy` of a row, and `cx` of eight columns
  unfoldable pub rows_y : View F → ℕ → Vec8 F
  unfolding vec8f_set1_s vec8f_mul2_v vec8f_add2_v
  rows_y m y =
      vec8f_add2_v ar
        (vec8f_mul2_v ar
          (vec8f_add2_v ar (vec8f_mul2_v ar (vec8f_set1_s (ar.of_nat y)) (vec8f_set1_s m.height_r))
            (vec8f_set1_s (center ar)))
          (vec8f_set1_s m.scale))
        (vec8f_set1_s m.shift_y)

  unfoldable pub columns_x : View F → ℕ → Vec8 F
  unfolding vec8f_set1_s vec8f_set_s vec8f_mul2_v vec8f_add2_v
  columns_x m x =
      let at : ℕ → F = λ k. ar.of_nat (add32 x k) in
      vec8f_add2_v ar
        (vec8f_mul2_v ar
          (vec8f_add2_v ar
            (vec8f_mul2_v ar
              (vec8f_mul2_v ar (vec8f_set_s (at 0) (at 1) (at 2) (at 3) (at 4) (at 5) (at 6) (at 7))
                (vec8f_set1_s m.width_r))
              (vec8f_set1_s m.aspect_ratio))
            (vec8f_set1_s (center ar)))
          (vec8f_set1_s m.scale))
        (vec8f_set1_s m.shift_x)

  -- What is written: the counts, those that reached `bailout` cleared, by `bailout`.
  unfoldable pub values : View F → ℕ → ℕ → Vec8 F
  unfolding probe rows_y columns_x vec8i_set1_s vec8i_ne3_mask_s vec8i_and2_v vec8i_cvt2_vec8f
      vec8f_div2_s
  values m x y =
      let cx = columns_x m x in
      let cy = rows_y m y in
      let vi = probe m.bailout cx cy cx cy (vec8i_set1_s 0) in
      let b = ar.of_nat m.bailout in
      vec8f_div2_s ar (vec8i_cvt2_vec8f ar (vec8i_and2_v vi (vec8i_ne3_mask_s ar vi b))) b

  abbrev pub draw : View F → ℕ → ℕ → Surface F → Outcome (Surface F)
  draw m y x s = set_pixels s x y 8 (lanes (values m x y))

  unfoldable pub process_block : View F → ℕ → ℕ → ℕ → ℕ → Surface F → Outcome (Surface F)
  unfolding scan
  process_block m x0 x1 y0 y1 s = scan (λ x. leb x x1) 8 y1 (draw m) x0 y0 s

  -- The block in whole vectors, of colors that the lanes have.
  pub process_block-Painted :
      (m : View F) (s : Surface F) (color : ℕ → ℕ → F) {cells : List F} {x0 x1 y0 y1 : ℕ}
      → ((x y : ℕ) → x ≤ x1 → AreColors s color x y 8 (lanes (values m x y)))
      → IsValid s cells
      → x0 ≤ x1
      → y0 ≤ y1
      → x1 + 8 < 2 ^ 32
      → y1 + 1 < 2 ^ 32
      → Painted s color cells
          (in_block x0 (((x1 - x0) / 8 + 1) * 8) y0 y1)
          (process_block m x0 x1 y0 y1 (holding s cells))
  unfolding process_block
  process_block-Painted m s color {x0} {x1} {y0} {y1} colors v hx hy bx by =
      scan-Painted s color (λ x. leb x x1) 8 (draw m)
        (λ y x cells on v.
          set_pixels-Painted s color x y 8 (lanes (values m x y)) v (omega (arith, leb→le x x1 on))
            (omega arith) (colors x y (leb→le x x1 on)))
        x0 ((x1 - x0) / 8 + 1) y0 y1 (omega arith) (omega arith) (λ k h. le→leb _ _ (omega arith))
        (lt→leb _ _ (omega arith)) hy by v
