-- ===== src/Examples/Columns.antt =====
-- The kernels of mdb_avx2.c and mdb_native_vec.c.
use mdb.Base.{ℕ, ◌+◌, ◌-◌, ◌*◌, ◌≡◌, refl, List, arith, ltb, ◌==◌, if◌then◌else◌, get_elem?, done}
use mdb.Surface.Pixels.{IsValid, holding}
use mdb.Mandelbrot.Vec8.{Vec8, Lane, lanes, vec8f_set_s}
use mdb.Mandelbrot.Native
use mdb.Mandelbrot.NativeVec
use mdb.Mandelbrot.Agreement.{values-values}
use mdb.Mandelbrot.Avx2
use mdb.Mandelbrot.Avx2.{Intrinsics}
use mdb.Mandelbrot.Columns.{last_column_kept}
use mdb.Examples.Frame.{tenths, half, blank, blank_cells, blank-IsValid, ten_times}

-- Eight places, each by itself. A place of a mask is all ones, which stand for 10, or zero.
abbrev by_place : Intrinsics ℕ (Vec8 ℕ)
by_place = record {
  set1_ps = λ a l. a;
  set_ps = λ e7 e6 e5 e4 e3 e2 e1 e0. vec8f_set_s e0 e1 e2 e3 e4 e5 e6 e7;
  mul_ps = λ a b l. tenths.mul (a l) (b l);
  add_ps = λ a b l. a l + b l;
  sub_ps = λ a b l. a l - b l;
  div_ps = λ a b l. tenths.div (a l) (b l);
  and_ps = λ a b l. if b l == 0 then 0 else a l;
  fmadd_ps = λ a b c l. tenths.mul (a l) (b l) + c l;
  fmsub_ps = λ a b c l. tenths.mul (a l) (b l) - c l;
  cmp_lt_oq_ps = λ a b l. if ltb (a l) (b l) then 10 else 0;
  cmp_neq_oq_ps = λ a b l. if a l == b l then 0 else 10;
  movemask_ps = λ a. a Lane.l0;
  store_ps = λ a. lanes a;
}

last_column_kept_example :
    (cells' : List ℕ) × (Avx2.process_block tenths by_place half 0 8 0 7 (holding blank blank_cells)
      ≡ done (holding blank cells'))
    × IsValid blank cells'
    × (get_elem? cells' (3 * 16 + 8) ≡ get_elem? blank_cells (3 * 16 + 8))
last_column_kept_example =
    last_column_kept tenths by_place (λ v. refl) half blank {cells = blank_cells} {px = 8} {py = 3}
      blank-IsValid (omega arith) (omega arith) (omega arith) (omega arith) refl (omega arith)
      (omega arith) (omega arith)

values-values_example : NativeVec.values tenths half 8 3 ≡ Native.values tenths half 8 3
values-values_example = values-values tenths half 8 (λ k h. omega arith) (omega arith) ten_times 3
