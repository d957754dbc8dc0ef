-- ===== src/Mandelbrot/Avx2Fma.antt =====
-- kernel_modules/mandelbrot/mdb_avx2_fma.c: the kernel on AVX2 intrinsics with fused operations.
use mdb.Base.{ℕ, zero, suc, true, false, List, ltb, ◌==◌, Outcome}
use mdb.View.{View}
use mdb.Surface.{Surface, set_pixels}
use mdb.Mandelbrot.{Arith, center, scan}
use mdb.Mandelbrot.Avx2.{Intrinsics, set_columns, pixels_of}

module _ {F : Type 0} {V : Type 0} (ar : Arith F) (mm : Intrinsics F V) where
  -- The loop of `mdb_point_probe`, with the rounds that are left until `bailout`.
  unfoldable pub probe : ℕ → V → V → V → V → V → V
  probe zero cx cy zx zy i = i
  probe (suc rounds) cx cy zx zy i =
      let zx' = mm.fmsub_ps zx zx (mm.fmsub_ps zy zy cx) in
      let zy' = mm.fmadd_ps zx zy (mm.fmadd_ps zx zy cy) in
      let mag2 = mm.fmadd_ps zx' zx' (mm.mul_ps zy' zy') in
      let bound_mask = mm.cmp_lt_oq_ps mag2 (mm.set1_ps (ar.of_nat 4)) in
      elim (mm.movemask_ps bound_mask == 0) [
        | false ↦
            probe rounds cx cy zx' zy'
              (mm.add_ps i (mm.and_ps bound_mask (mm.set1_ps (ar.of_nat 1))))
        | true ↦ i
      ]

  unfoldable pub point_probe : V → V → ℕ → V
  unfolding probe
  point_probe cx cy bailout = probe bailout cx cy cx cy (mm.set1_ps (ar.of_nat 0))

  -- The values that `set_pixels` of this file stores.
  unfoldable pub pixels : View F → ℕ → ℕ → List F
  unfolding point_probe set_columns pixels_of
  pixels m y x =
      let scale = mm.set1_ps m.scale in
      let mid = mm.set1_ps (center ar) in
      let cy =
        mm.fmadd_ps (mm.fmadd_ps (mm.set1_ps (ar.of_nat y)) (mm.set1_ps m.height_r) mid) scale
          (mm.set1_ps m.shift_y) in
      let cx =
        mm.fmadd_ps
          (mm.fmadd_ps (mm.mul_ps (set_columns ar mm x) (mm.set1_ps m.width_r))
            (mm.set1_ps m.aspect_ratio) mid)
          scale (mm.set1_ps m.shift_x) in
      pixels_of ar mm m.bailout (point_probe cx cy m.bailout)

  abbrev pub draw : View F → ℕ → ℕ → Surface F → Outcome (Surface F)
  draw m y x s = set_pixels s x y 8 (pixels m y x)

  unfoldable pub process_block : View F → ℕ → ℕ → ℕ → ℕ → Surface F → Outcome (Surface F)
  unfolding scan
  process_block m x0 x1 y0 y1 s = scan (λ x. ltb x x1) 8 y1 (draw m) x0 y0 s
