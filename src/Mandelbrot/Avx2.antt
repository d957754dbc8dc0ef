-- ===== src/Mandelbrot/Avx2.antt =====
-- kernel_modules/mandelbrot/mdb_avx2.c: the kernel on AVX2 intrinsics. The vectors and the
-- intrinsics are a parameter.
use mdb.Base.{ℕ, zero, suc, true, false, List, ltb, ◌==◌, add32, Outcome}
use mdb.View.{View}
use mdb.Surface.{Surface, set_pixels}
use mdb.Mandelbrot.{Arith, center, scan}

-- The intrinsics of immintrin.h, by their names without `_mm256_`, on vectors `V`.
pub record Intrinsics (F : Type 0) (V : Type 0) : Type 0 where
  pub set1_ps : F → V
  pub set_ps : F → F → F → F → F → F → F → F → V  -- the highest place first
  pub mul_ps : V → V → V
  pub add_ps : V → V → V
  pub sub_ps : V → V → V
  pub div_ps : V → V → V
  pub and_ps : V → V → V
  pub fmadd_ps : V → V → V → V
  pub fmsub_ps : V → V → V → V
  pub cmp_lt_oq_ps : V → V → V
  pub cmp_neq_oq_ps : V → V → V
  pub movemask_ps : V → ℕ
  pub store_ps : V → List F  -- what it leaves in the array

module _ {F : Type 0} {V : Type 0} (ar : Arith F) (mm : Intrinsics F V) where
  -- The loop of `mdb_point_probe`, with the rounds that are left until `bailout`.
  unfoldable pub probe : ℕ → V → V → V → V → V → V
  probe zero cx cy zx zy i = i
  probe (suc rounds) cx cy zx zy i =
      let zxzy = mm.mul_ps zx zy in
      let zx' = mm.add_ps (mm.sub_ps (mm.mul_ps zx zx) (mm.mul_ps zy zy)) cx in
      let zy' = mm.add_ps (mm.add_ps zxzy zxzy) cy in
      let mag2 = mm.add_ps (mm.mul_ps zx' zx') (mm.mul_ps zy' zy') in
      let bound_mask = mm.cmp_lt_oq_ps mag2 (mm.set1_ps (ar.of_nat 4)) in
      elim (mm.movemask_ps bound_mask == 0) [
        | false ↦
            probe rounds cx cy zx' zy'
              (mm.add_ps i (mm.and_ps bound_mask (mm.set1_ps (ar.of_nat 1))))
        | true ↦ i
      ]

  unfoldable pub point_probe : V → V → ℕ → V
  unfolding probe
  point_probe cx cy bailout = probe bailout cx cy cx cy (mm.set1_ps (ar.of_nat 0))

  unfoldable pub set_columns : ℕ → V
  set_columns x =
      mm.set_ps (ar.of_nat (add32 x 7)) (ar.of_nat (add32 x 6)) (ar.of_nat (add32 x 5))
        (ar.of_nat (add32 x 4)) (ar.of_nat (add32 x 3)) (ar.of_nat (add32 x 2))
        (ar.of_nat (add32 x 1)) (ar.of_nat (add32 x 0))

  -- What is stored for the counts: those that reached `bailout` cleared, by `bailout`.
  unfoldable pub pixels_of : ℕ → V → List F
  pixels_of bailout i =
      let b = mm.set1_ps (ar.of_nat bailout) in
      mm.store_ps (mm.div_ps (mm.and_ps i (mm.cmp_neq_oq_ps i b)) b)

  unfoldable pub pixels : View F → ℕ → ℕ → List F
  unfolding point_probe set_columns pixels_of
  pixels m y x =
      let scale = mm.set1_ps m.scale in
      let mid = mm.set1_ps (center ar) in
      let cy =
        mm.add_ps
          (mm.mul_ps (mm.add_ps (mm.mul_ps (mm.set1_ps (ar.of_nat y)) (mm.set1_ps m.height_r)) mid)
            scale)
          (mm.set1_ps m.shift_y) in
      let cx =
        mm.add_ps
          (mm.mul_ps
            (mm.add_ps
              (mm.mul_ps (mm.mul_ps (set_columns x) (mm.set1_ps m.width_r))
                (mm.set1_ps m.aspect_ratio))
              mid)
            scale)
          (mm.set1_ps m.shift_x) in
      pixels_of m.bailout (point_probe cx cy m.bailout)

  abbrev pub draw : View F → ℕ → ℕ → Surface F → Outcome (Surface F)
  draw m y x s = set_pixels s x y 8 (pixels m y x)

  unfoldable pub process_block : View F → ℕ → ℕ → ℕ → ℕ → Surface F → Outcome (Surface F)
  unfolding scan
  process_block m x0 x1 y0 y1 s = scan (λ x. ltb x x1) 8 y1 (draw m) x0 y0 s
