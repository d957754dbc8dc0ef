-- ===== src/Mandelbrot/Agreement.antt =====
-- The kernels of mdb_native_vec.c and mdb_native.c side by side.
use mdb.Base.{
  ℕ, zero, suc, ◌+◌, ◌^◌, ◌≤◌, ◌<◌, ◌≡◌, refl, ap, ap₂, sym, ◌∙◌, Bool, true, false, not, ◌==◌,
  if◌then◌else◌, arith, add32, Bool-cases, inl, inr,
}
use Prim.Native.Nat.{bit_and}
use mathlib.Core.Path.{fun_ext}
use mdb.View.{View}
use mdb.Mandelbrot.{Arith, center}
use mdb.Mandelbrot.Vec8.{
  Lane, l0, l1, l2, l3, l4, l5, l6, l7, Vec8, mask_word, vec8i_test_zf, vec8f_set_s, vec8f_set1_s,
  vec8i_set1_s, vec8f_mul2_v, vec8f_add2_v, vec8f_op_bi_v, vec8f_op_bi_s, vec8i_ne3_mask_s,
  vec8i_op_bi_v, vec8i_and2_v, vec8i_cvt2_vec8f, vec8f_div2_s,
}
use mdb.Mandelbrot.Native
use mdb.Mandelbrot.NativeVec
use mdb.Mandelbrot.Lanes.{probe_on, probe_off, lanes_x, lanes_y, mask, counted}

add_mask_lem : (b : Bool) → bit_and 1 (mask_word b) ≡ (if mask_word b == 0 then 0 else 1)
add_mask_lem true = refl
add_mask_lem false = refl

module _ {F : Type 0} (ar : Arith F) (cx cy : Vec8 F) where
  vec_on :
      (rounds : ℕ) (zx zy : Vec8 F) (vi : Vec8 ℕ)
      → vec8i_test_zf (mask ar cx cy zx zy) ≡ false
      → NativeVec.probe ar (suc rounds) cx cy zx zy vi
        ≡ NativeVec.probe ar rounds cx cy
            (lanes_x ar cx cy zx zy)
            (lanes_y ar cx cy zx zy)
            (λ l. add32 (vi l) (bit_and 1 (mask ar cx cy zx zy l)))
  unfolding NativeVec.probe NativeVec.vec8i_test_zero NativeVec.less_mask
  vec_on rounds zx zy vi e = rw (NativeVec.probe, e)

  vec_off :
      (rounds : ℕ) (zx zy : Vec8 F) (vi : Vec8 ℕ)
      → vec8i_test_zf (mask ar cx cy zx zy) ≡ true
      → NativeVec.probe ar (suc rounds) cx cy zx zy vi ≡ vi
  unfolding NativeVec.probe NativeVec.vec8i_test_zero NativeVec.less_mask
  vec_off rounds zx zy vi e = rw (NativeVec.probe, e)

  probe-probe :
      (rounds : ℕ) (zx zy : Vec8 F) (vi : Vec8 ℕ)
      → NativeVec.probe ar rounds cx cy zx zy vi ≡ Native.probe ar rounds cx cy zx zy vi
  unfolding NativeVec.probe Native.probe
  probe-probe zero zx zy vi = refl
  probe-probe (suc rounds) zx zy vi = elim (Bool-cases (vec8i_test_zf (mask ar cx cy zx zy))) [
    | inl e ↦ vec_off rounds zx zy vi e ∙ sym (probe_off ar cx cy rounds zx zy vi e)
    | inr e ↦
        let same : (λ l. add32 (vi l) (bit_and 1 (mask ar cx cy zx zy l)))
            ≡ counted ar cx cy zx zy vi =
          fun_ext (λ l. ap (add32 (vi l)) (add_mask_lem _)) in
        vec_on rounds zx zy vi e
        ∙ ap (NativeVec.probe ar rounds cx cy (lanes_x ar cx cy zx zy) (lanes_y ar cx cy zx zy))
            same
        ∙ probe-probe rounds (lanes_x ar cx cy zx zy) (lanes_y ar cx cy zx zy)
            (counted ar cx cy zx zy vi)
        ∙ sym (probe_on ar cx cy rounds zx zy vi e)
  ]

  probe-le :
      (rounds : ℕ) (zx zy : Vec8 F) (vi : Vec8 ℕ) (l : Lane)
      → Native.probe ar rounds cx cy zx zy vi l ≤ vi l + rounds
  unfolding Native.probe
  probe-le zero zx zy vi l = omega arith
  probe-le (suc rounds) zx zy vi l = elim (Bool-cases (vec8i_test_zf (mask ar cx cy zx zy))) [
    | inl e ↦ let stop = ap (λ v. v l) (probe_off ar cx cy rounds zx zy vi e) in omega (arith, stop)
    | inr e ↦
        let go = ap (λ v. v l) (probe_on ar cx cy rounds zx zy vi e) in
        let more : counted ar cx cy zx zy vi l ≤ vi l + 1 = ground arith in
        omega (
          arith,
          go,
          more,
          probe-le rounds (lanes_x ar cx cy zx zy) (lanes_y ar cx cy zx zy)
              (counted ar cx cy zx zy vi) l,
        )
  ]

module _ {F : Type 0} (ar : Arith F) (m : View F) (x : ℕ)
    (sums : (k : ℕ) → k < 8 → ar.add (ar.of_nat x) (ar.of_nat k) ≡ ar.of_nat (x + k))
    (wide : x + 8 < 2 ^ 32) where
  -- What a column is made of.
  abbrev point_of : F → F
  point_of a =
      ar.add (ar.mul (ar.add (ar.mul (ar.mul a m.width_r) m.aspect_ratio) (center ar)) m.scale)
        m.shift_x

  sum_word : (k : ℕ) → k < 8 → ar.add (ar.of_nat x) (ar.of_nat k) ≡ ar.of_nat (add32 x k)
  sum_word k h = let e : x + k ≡ add32 x k = omega arith in sums k h ∙ ap ar.of_nat e

  columns_x-columns_x : (l : Lane) → NativeVec.columns_x ar m x l ≡ Native.columns_x ar m x l
  unfolding NativeVec.columns_x Native.columns_x vec8f_set_s vec8f_set1_s vec8f_mul2_v vec8f_add2_v
      vec8f_op_bi_v
  columns_x-columns_x l0 = ap point_of (sum_word 0 (omega arith))
  columns_x-columns_x l1 = ap point_of (sum_word 1 (omega arith))
  columns_x-columns_x l2 = ap point_of (sum_word 2 (omega arith))
  columns_x-columns_x l3 = ap point_of (sum_word 3 (omega arith))
  columns_x-columns_x l4 = ap point_of (sum_word 4 (omega arith))
  columns_x-columns_x l5 = ap point_of (sum_word 5 (omega arith))
  columns_x-columns_x l6 = ap point_of (sum_word 6 (omega arith))
  columns_x-columns_x l7 = ap point_of (sum_word 7 (omega arith))

  rows_y-rows_y : (y : ℕ) → NativeVec.rows_y ar m y ≡ Native.rows_y ar m y
  unfolding NativeVec.rows_y Native.rows_y vec8f_set1_s vec8f_mul2_v vec8f_add2_v vec8f_op_bi_v
  rows_y-rows_y y = refl

  module _
      (exact : (i : ℕ)
        → i ≤ m.bailout
        → ar.eq (ar.of_nat i) (ar.of_nat m.bailout) ≡ (i == m.bailout)) where
    counts_of : ℕ → Vec8 ℕ
    counts_of y =
        Native.probe ar m.bailout (Native.columns_x ar m x) (Native.rows_y ar m y)
          (Native.columns_x ar m x) (Native.rows_y ar m y) (vec8i_set1_s 0)

    vec-counts :
        (y : ℕ)
        → NativeVec.probe ar m.bailout
            (NativeVec.columns_x ar m x)
            (NativeVec.rows_y ar m y)
            (NativeVec.columns_x ar m x)
            (NativeVec.rows_y ar m y)
            (λ l. 0)
          ≡ counts_of y
    unfolding counts_of vec8i_set1_s
    vec-counts y =
        ap₂ (λ cx cy. NativeVec.probe ar m.bailout cx cy cx cy (λ l. 0))
          (fun_ext columns_x-columns_x) (rows_y-rows_y y)
        ∙ probe-probe ar (Native.columns_x ar m x) (Native.rows_y ar m y) m.bailout
            (Native.columns_x ar m x) (Native.rows_y ar m y) (λ l. 0)

    counts_of-le : (y : ℕ) (l : Lane) → counts_of y l ≤ m.bailout
    unfolding counts_of vec8i_set1_s
    counts_of-le y l =
        let le =
          probe-le ar (Native.columns_x ar m x) (Native.rows_y ar m y) m.bailout
            (Native.columns_x ar m x) (Native.rows_y ar m y) (vec8i_set1_s 0) l in
        omega (arith, le)

    -- For eight columns of 32-bit numbers whose sums with the first the floats have exactly, and a
    -- bailout from which they tell every smaller count: the kernel on the vectors of the compiler
    -- and the kernel on `struct vec8` write the same eight values.
    pub values-values : (y : ℕ) → NativeVec.values ar m x y ≡ Native.values ar m x y
    unfolding NativeVec.values Native.values NativeVec.vec8i_cvt2f vec8f_div2_s vec8i_cvt2_vec8f
        vec8i_and2_v vec8i_ne3_mask_s vec8i_op_bi_v vec8f_op_bi_s counts_of
    values-values y =
        ap
          (λ vi l.
            ar.div (ar.of_nat (bit_and (vi l) (mask_word (not (vi l == m.bailout)))))
              (ar.of_nat m.bailout))
          (vec-counts y)
        ∙ fun_ext (λ l.
          ap
            (λ b.
              ar.div (ar.of_nat (bit_and (counts_of y l) (mask_word (not b))))
                (ar.of_nat m.bailout))
            (sym (exact (counts_of y l) (counts_of-le y l))))
