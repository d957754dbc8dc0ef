-- ===== src/Mandelbrot/Drawn.antt =====
-- What the vector kernel mdb_native.c writes, by the count of mdb_generic.c.
use mdb.Base.{
  ℕ, zero, suc, ◌+◌, ◌-◌, ◌*◌, ◌/◌, ◌^◌, ◌≤◌, ◌<◌, ◌≡◌, refl, sym, ap, subst, ◌∙◌, not, List, some,
  ◌==◌, if◌then◌else◌, arith, add32, Bool-cases, inl, inr, bit_and-ones, bit_and-zeros,
}
use Prim.Native.Nat.{bit_and}
use mdb.View.{View}
use mdb.Surface.{Surface}
use mdb.Surface.Pixels.{holding, IsValid}
use mdb.Surface.Paint.{AreColors, Painted}
use mdb.Mandelbrot.{Arith, bound}
use mdb.Mandelbrot.Scan.{in_block}
use mdb.Mandelbrot.Vec8.{
  Lane, l0, l1, l2, l3, l4, l5, l6, l7, lanes, index, get_elem?-lanes, mask_word, vec8f_set_s,
  vec8f_set1_s, vec8f_mul2_v, vec8f_add2_v, vec8f_op_bi_v, vec8f_op_bi_s, vec8i_set1_s,
  vec8i_ne3_mask_s, vec8i_op_bi_v, vec8i_and2_v, vec8i_cvt2_vec8f, vec8f_div2_s,
}
use mdb.Mandelbrot.Generic
use mdb.Mandelbrot.Generic.{column_x, row_y, count}
use mdb.Mandelbrot.Native
use mdb.Mandelbrot.Native.{columns_x, rows_y, values}
use mdb.Mandelbrot.Lanes.{Escapes, lane-probe, generic_on, generic_off, mag2, next_x, next_y}

module _ {F : Type 0} (ar : Arith F) (m : View F) where
  probe_le :
      (rounds : ℕ) (cx cy zx zy : F) (i : ℕ) → Generic.probe ar rounds cx cy zx zy i ≤ i + rounds
  unfolding Generic.probe
  probe_le zero cx cy zx zy i = omega arith
  probe_le (suc rounds) cx cy zx zy i =
      elim (Bool-cases (ar.lt (bound ar) (mag2 ar cx cy 0 zx zy))) [
        | inl out ↦ let e = generic_off ar cx cy rounds zx zy i out in omega (arith, e)
        | inr on ↦
            let e = generic_on ar cx cy rounds zx zy i on in
            omega
              (arith, e, probe_le rounds cx cy (next_x ar cx zx zy) (next_y ar cy zx zy) (i + 1))
      ]

  columns_x-lane :
      (x : ℕ) (l : Lane) → x + 8 < 2 ^ 32 → columns_x ar m x l ≡ column_x ar m (x + index l)
  unfolding columns_x column_x vec8f_set_s vec8f_set1_s vec8f_mul2_v vec8f_add2_v vec8f_op_bi_v
  columns_x-lane x l0 h = let e : add32 x 0 ≡ x + 0 = omega arith in ap (column_x ar m) e
  columns_x-lane x l1 h = let e : add32 x 1 ≡ x + 1 = omega arith in ap (column_x ar m) e
  columns_x-lane x l2 h = let e : add32 x 2 ≡ x + 2 = omega arith in ap (column_x ar m) e
  columns_x-lane x l3 h = let e : add32 x 3 ≡ x + 3 = omega arith in ap (column_x ar m) e
  columns_x-lane x l4 h = let e : add32 x 4 ≡ x + 4 = omega arith in ap (column_x ar m) e
  columns_x-lane x l5 h = let e : add32 x 5 ≡ x + 5 = omega arith in ap (column_x ar m) e
  columns_x-lane x l6 h = let e : add32 x 6 ≡ x + 6 = omega arith in ap (column_x ar m) e
  columns_x-lane x l7 h = let e : add32 x 7 ≡ x + 7 = omega arith in ap (column_x ar m) e

  rows_y-lane : (y : ℕ) (l : Lane) → rows_y ar m y l ≡ row_y ar m y
  unfolding rows_y row_y vec8f_set1_s vec8f_mul2_v vec8f_add2_v vec8f_op_bi_v
  rows_y-lane y l = refl

  -- The count of the generic kernel by `bailout`
  abbrev pub count_ratio : ℕ → ℕ → F
  count_ratio x y =
      ar.div (ar.of_nat (count ar m.bailout (column_x ar m x) (row_y ar m y))) (ar.of_nat m.bailout)

  -- The point of a pixel leaves as the kernels assume.
  abbrev pub EscapesAt : ℕ → ℕ → Type 0
  EscapesAt x y =
      Escapes ar (column_x ar m x) (row_y ar m y) m.bailout (column_x ar m x) (row_y ar m y)

  module _
      (exact : (i : ℕ)
        → i ≤ m.bailout
        → ar.eq (ar.of_nat i) (ar.of_nat m.bailout) ≡ (i == m.bailout))
      (small : m.bailout < 2 ^ 31) where
    cleared :
        (i : ℕ)
        → i ≤ m.bailout
        → bit_and i (mask_word (not (ar.eq (ar.of_nat i) (ar.of_nat m.bailout))))
          ≡ (if i == m.bailout then 0 else i)
    cleared i h = rw (exact i h) (ground (arith, bit_and-ones i (omega arith), bit_and-zeros i))

    -- What a lane writes for its count.
    abbrev by_count : ℕ → F
    by_count i =
        ar.div (ar.of_nat (bit_and i (mask_word (not (ar.eq (ar.of_nat i) (ar.of_nat m.bailout))))))
          (ar.of_nat m.bailout)

    values-by_count :
        (x y : ℕ) (l : Lane)
        → values ar m x y l
          ≡ by_count (
              Native.probe ar m.bailout
                (columns_x ar m x)
                (rows_y ar m y)
                (columns_x ar m x)
                (rows_y ar m y)
                (vec8i_set1_s 0)
                l)
    unfolding values vec8f_div2_s vec8i_cvt2_vec8f vec8i_and2_v vec8i_ne3_mask_s vec8i_op_bi_v
        vec8f_op_bi_s
    values-by_count x y l = refl

    -- For a bailout below 2^31 from which the floats tell every smaller count, eight columns of
    -- 32-bit numbers, and a lane whose point, once out of the disc, stays out and until then is never
    -- on the circle: whatever the other lanes do, the vector kernel writes for the lane the count that
    -- the generic kernel has for its pixel, by the bailout.
    pub values-lane :
        (x y : ℕ) (l : Lane)
        → x + 8 < 2 ^ 32
        → EscapesAt (x + index l) y
        → values ar m x y l ≡ count_ratio (x + index l) y
    unfolding vec8i_set1_s count rows_y row_y vec8f_set1_s vec8f_mul2_v vec8f_add2_v vec8f_op_bi_v
    values-lane x y l h esc =
        let cx = columns_x ar m x in
        let cy = rows_y ar m y in
        let bounded = probe_le m.bailout (cx l) (cy l) (cx l) (cy l) 0 in
        let at_lane =
          subst (λ c. Escapes ar c (cy l) m.bailout c (cy l)) (sym (columns_x-lane x l h)) esc in
        values-by_count x y l
        ∙ ap by_count (lane-probe ar cx cy m.bailout cx cy (vec8i_set1_s 0) l at_lane (omega arith))
        ∙ ap (λ i. ar.div (ar.of_nat i) (ar.of_nat m.bailout)) (cleared _ (omega (arith, bounded)))
        ∙ ap (λ c. ar.div (ar.of_nat (count ar m.bailout c (cy l))) (ar.of_nat m.bailout))
            (columns_x-lane x l h)

    values-AreColors :
        (s : Surface F)
        → ((x y : ℕ) → EscapesAt x y)
        → (x y : ℕ) → x + 8 < 2 ^ 32
        → AreColors s count_ratio x y 8 (lanes (values ar m x y))
    values-AreColors s esc x y h k less =
        let (l, e, found) = get_elem?-lanes (values ar m x y) k less in
        found
        ∙ ap some (values-lane x y l h (esc (x + index l) y) ∙ ap (λ k. count_ratio (x + k) y) e)

    pub native-Painted :
        (s : Surface F) {cells : List F} {x0 x1 y0 y1 : ℕ}
        → ((x y : ℕ) → EscapesAt x y)
        → IsValid s cells
        → x0 ≤ x1
        → y0 ≤ y1
        → x1 + 8 < 2 ^ 32
        → y1 + 1 < 2 ^ 32
        → Painted s count_ratio cells
            (in_block x0 (((x1 - x0) / 8 + 1) * 8) y0 y1)
            (Native.process_block ar m x0 x1 y0 y1 (holding s cells))
    native-Painted s {x1} esc v hx hy bx by =
        Native.process_block-Painted ar m s count_ratio
          (λ x y h. values-AreColors s esc x y (omega arith)) v hx hy bx by
