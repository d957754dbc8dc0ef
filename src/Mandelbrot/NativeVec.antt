-- ===== src/Mandelbrot/NativeVec.antt =====
-- kernel_modules/mandelbrot/mdb_native_vec.c: the kernel on the vectors of the compiler, whose
-- operations go by lanes. A lane of a mask is all ones or zero.
use mdb.Base.{ℕ, zero, suc, Bool, true, false, not, leb, ◌==◌, add32, Outcome}
use Prim.Native.Nat.{bit_and}
use mdb.View.{View}
use mdb.Surface.{Surface, set_pixels}
use mdb.Mandelbrot.{Arith, center, bound, scan}
use mdb.Mandelbrot.Vec8.{Vec8, lanes, mask_word, vec8i_test_zf, vec8f_set_s}

-- Whether `vec8i_test_zero` is not 0: some lane of a mask is set.
unfoldable pub vec8i_test_zero : Vec8 ℕ → Bool
unfolding vec8i_test_zf
vec8i_test_zero v = not (vec8i_test_zf v)

module _ {F : Type 0} (ar : Arith F) where
  unfoldable pub vec8i_cvt2f : Vec8 ℕ → Vec8 F
  vec8i_cvt2f v l = ar.of_nat (v l)

  -- `a < b`, and `a != b`, as masks
  unfoldable pub less_mask : Vec8 F → Vec8 F → Vec8 ℕ
  less_mask a b l = mask_word (ar.lt (a l) (b l))

  abbrev ne_mask : Vec8 ℕ → Vec8 ℕ → Vec8 ℕ
  ne_mask a b l = mask_word (not (a l == b l))

  abbrev and_lanes : Vec8 ℕ → Vec8 ℕ → Vec8 ℕ
  and_lanes a b l = bit_and (a l) (b l)

  abbrev by_lanes : (F → F → F) → Vec8 F → Vec8 F → Vec8 F
  by_lanes op a b l = op (a l) (b l)

  -- The loop over `i`, with the rounds that are left until `bailout`: the value of `vi` after it.
  unfoldable pub probe : ℕ → Vec8 F → Vec8 F → Vec8 F → Vec8 F → Vec8 ℕ → Vec8 ℕ
  unfolding vec8i_test_zero less_mask
  probe zero cx cy zx zy vi = vi
  probe (suc rounds) cx cy zx zy vi =
      let zxzy = by_lanes ar.mul zx zy in
      let zx' =
        by_lanes ar.add (by_lanes ar.sub (by_lanes ar.mul zx zx) (by_lanes ar.mul zy zy)) cx in
      let zy' = by_lanes ar.add (by_lanes ar.add zxzy zxzy) cy in
      let mag2 = by_lanes ar.add (by_lanes ar.mul zx' zx') (by_lanes ar.mul zy' zy') in
      let mask = less_mask mag2 (λ l. bound ar) in
      elim (vec8i_test_zero mask) [
        | true ↦ probe rounds cx cy zx' zy' (λ l. add32 (vi l) (and_lanes (λ l. 1) mask l))
        | false ↦ vi
      ]

  unfoldable pub rows_y : View F → ℕ → Vec8 F
  rows_y m y l =
      ar.add (ar.mul (ar.add (ar.mul (ar.of_nat y) m.height_r) (center ar)) m.scale) m.shift_y

  -- `x + 0.0f` to `x + 7.0f`, sums of floats
  unfoldable pub columns_x : View F → ℕ → Vec8 F
  unfolding vec8f_set_s
  columns_x m x l =
      let at : ℕ → F = λ k. ar.add (ar.of_nat x) (ar.of_nat k) in
      let xs = vec8f_set_s (at 0) (at 1) (at 2) (at 3) (at 4) (at 5) (at 6) (at 7) in
      ar.add (ar.mul (ar.add (ar.mul (ar.mul (xs l) m.width_r) m.aspect_ratio) (center ar)) m.scale)
        m.shift_x

  -- What is written: the counts, those that reached `bailout` cleared, by `bailout`.
  unfoldable pub values : View F → ℕ → ℕ → Vec8 F
  unfolding probe rows_y columns_x vec8i_cvt2f
  values m x y =
      let cx = columns_x m x in
      let cy = rows_y m y in
      let vi = probe m.bailout cx cy cx cy (λ l. 0) in
      by_lanes ar.div (vec8i_cvt2f (and_lanes vi (ne_mask vi (λ l. m.bailout))))
        (λ l. ar.of_nat m.bailout)

  abbrev pub draw : View F → ℕ → ℕ → Surface F → Outcome (Surface F)
  draw m y x s = set_pixels s x y 8 (lanes (values m x y))

  unfoldable pub process_block : View F → ℕ → ℕ → ℕ → ℕ → Surface F → Outcome (Surface F)
  unfolding scan
  process_block m x0 x1 y0 y1 s = scan (λ x. leb x x1) 8 y1 (draw m) x0 y0 s
