-- ===== src/Mandelbrot/Lanes.antt =====
-- The lanes of mdb_native.c against the loop of mdb_generic.c.
use mdb.Base.{
  ℕ, zero, suc, ◌+◌, ◌^◌, ◌<◌, ◌≡◌, refl, sym, ap, ◌∙◌, Bool, true, false, not, ◌==◌, if◌then◌else◌,
  arith, add32, Bool-cases, inl, inr,
}
use mdb.Mandelbrot.{Arith, bound}
use mdb.Mandelbrot.Vec8.{
  Lane, Vec8, vec8i_test_zf, test_zf-zero, vec8f_lt3_mask_s, mask_word, vec8f_mul3_v, vec8f_add3_v,
  vec8f_sub3_v, vec8i_add2_mask_s, vec8f_op3_bi_v,
}
use mdb.Mandelbrot.Generic
use mdb.Mandelbrot.Native

module _ {F : Type 0} (ar : Arith F) where
  -- One round of the kernels: the next point, and the square of its distance from 0.
  abbrev pub next_x : F → F → F → F
  next_x cx zx zy = ar.add (ar.sub (ar.mul zx zx) (ar.mul zy zy)) cx

  abbrev pub next_y : F → F → F → F
  next_y cy zx zy = ar.add (ar.add (ar.mul zx zy) (ar.mul zx zy)) cy

  abbrev pub square : F → F → F
  square zx zy = ar.add (ar.mul zx zx) (ar.mul zy zy)

  -- That square after n more rounds.
  abbrev pub mag2 : F → F → ℕ → F → F → F
  mag2 cx cy zero zx zy = square (next_x cx zx zy) (next_y cy zx zy)
  mag2 cx cy (suc n) zx zy = mag2 cx cy n (next_x cx zx zy) (next_y cy zx zy)

  abbrev pub inside : F → F → ℕ → F → F → Bool
  inside cx cy n zx zy = ar.lt (mag2 cx cy n zx zy) (bound ar)

  -- Within the rounds, a point that has left the disc stays outside, and until it leaves it is
  -- never on the circle itself.
  pub record Escapes (cx cy : F) (rounds : ℕ) (zx zy : F) : Type 0 where
    pub apart :
        (n : ℕ)
        → n < rounds
        → ((k : ℕ) → k < n → inside cx cy k zx zy ≡ true)
        → ar.lt (bound ar) (mag2 cx cy n zx zy) ≡ not (inside cx cy n zx zy)
    pub stays :
        (n : ℕ) → suc n < rounds → inside cx cy n zx zy ≡ false → inside cx cy (suc n) zx zy ≡ false

  Escapes-next :
      {cx cy : F} {rounds : ℕ} {zx zy : F}
      → Escapes cx cy (suc rounds) zx zy
      → inside cx cy 0 zx zy ≡ true
      → Escapes cx cy rounds (next_x cx zx zy) (next_y cy zx zy)
  Escapes-next {cx} {cy} {zx} {zy} e on = record {
    apart = λ n h before. e.apart (suc n) (omega arith) (λ k. earlier n before k);
    stays = λ n h out. e.stays (suc n) (omega arith) out;
  }
    where
      earlier :
          (n : ℕ)
          → ((k : ℕ) → k < n → inside cx cy (suc k) zx zy ≡ true)
          → (k : ℕ) → k < suc n
          → inside cx cy k zx zy ≡ true
      earlier n before zero h = on
      earlier n before (suc k) h = before k (omega arith)

  left_stays :
      {cx cy : F} {rounds : ℕ} {zx zy : F}
      → Escapes cx cy rounds zx zy
      → inside cx cy 0 zx zy ≡ false
      → (n : ℕ) → n < rounds
      → inside cx cy n zx zy ≡ false
  left_stays e out zero h = out
  left_stays e out (suc n) h = e.stays n h (left_stays e out n (omega arith))

  apart_now :
      {cx cy : F} {rounds : ℕ} {zx zy : F}
      → Escapes cx cy (suc rounds) zx zy
      → ar.lt (bound ar) (mag2 cx cy 0 zx zy) ≡ not (inside cx cy 0 zx zy)
  apart_now e = e.apart 0 (omega arith) (λ k h. absurd (omega arith))

  pub generic_on :
      (cx cy : F) (rounds : ℕ) (zx zy : F) (i : ℕ)
      → ar.lt (bound ar) (mag2 cx cy 0 zx zy) ≡ false
      → Generic.probe ar (suc rounds) cx cy zx zy i
        ≡ Generic.probe ar rounds cx cy (next_x cx zx zy) (next_y cy zx zy) (i + 1)
  unfolding Generic.probe
  generic_on cx cy rounds zx zy i e = rw (Generic.probe, e)

  pub generic_off :
      (cx cy : F) (rounds : ℕ) (zx zy : F) (i : ℕ)
      → ar.lt (bound ar) (mag2 cx cy 0 zx zy) ≡ true
      → Generic.probe ar (suc rounds) cx cy zx zy i ≡ i
  unfolding Generic.probe
  generic_off cx cy rounds zx zy i e = rw (Generic.probe, e)

  module _ (cx cy : Vec8 F) where
    abbrev pub lanes_x : Vec8 F → Vec8 F → Vec8 F
    lanes_x zx zy l = next_x (cx l) (zx l) (zy l)

    abbrev pub lanes_y : Vec8 F → Vec8 F → Vec8 F
    lanes_y zx zy l = next_y (cy l) (zx l) (zy l)

    abbrev pub mask : Vec8 F → Vec8 F → Vec8 ℕ
    mask zx zy l = mask_word (inside (cx l) (cy l) 0 (zx l) (zy l))

    abbrev pub counted : Vec8 F → Vec8 F → Vec8 ℕ → Vec8 ℕ
    counted zx zy vi l = add32 (vi l) (if mask zx zy l == 0 then 0 else 1)

    test_zf-on :
        (zx zy : Vec8 F) (l : Lane)
        → inside (cx l) (cy l) 0 (zx l) (zy l) ≡ true
        → vec8i_test_zf (mask zx zy) ≡ false
    test_zf-on zx zy l on = elim (Bool-cases (vec8i_test_zf (mask zx zy))) [
      | inl e ↦
          let none_set : mask zx zy l ≡ 0 = test_zf-zero (mask zx zy) l e in absurd (ground arith)
      | inr e ↦ e
    ]

    pub probe_on :
        (rounds : ℕ) (zx zy : Vec8 F) (vi : Vec8 ℕ)
        → vec8i_test_zf (mask zx zy) ≡ false
        → Native.probe ar (suc rounds) cx cy zx zy vi
          ≡ Native.probe ar rounds cx cy (lanes_x zx zy) (lanes_y zx zy) (counted zx zy vi)
    unfolding Native.probe vec8f_mul3_v vec8f_add3_v vec8f_sub3_v vec8f_lt3_mask_s vec8i_add2_mask_s
        vec8f_op3_bi_v
    probe_on rounds zx zy vi e = rw (Native.probe, e)

    pub probe_off :
        (rounds : ℕ) (zx zy : Vec8 F) (vi : Vec8 ℕ)
        → vec8i_test_zf (mask zx zy) ≡ true
        → Native.probe ar (suc rounds) cx cy zx zy vi ≡ vi
    unfolding Native.probe vec8f_mul3_v vec8f_add3_v vec8f_sub3_v vec8f_lt3_mask_s vec8i_add2_mask_s
        vec8f_op3_bi_v
    probe_off rounds zx zy vi e = rw (Native.probe, e)

    -- The count of a lane that has left stays, however long the other lanes go on.
    left-probe :
        (rounds : ℕ) (zx zy : Vec8 F) (vi : Vec8 ℕ) (l : Lane)
        → ((n : ℕ) → n < rounds → inside (cx l) (cy l) n (zx l) (zy l) ≡ false)
        → vi l < 2 ^ 32
        → Native.probe ar rounds cx cy zx zy vi l ≡ vi l
    unfolding Native.probe
    left-probe zero zx zy vi l out h = refl
    left-probe (suc rounds) zx zy vi l out h = elim (Bool-cases (vec8i_test_zf (mask zx zy))) [
      | inl e ↦ ap (λ v. v l) (probe_off rounds zx zy vi e)
      | inr e ↦
          let same : counted zx zy vi l ≡ vi l = ground (arith, out 0 (omega arith)) in
          ap (λ v. v l) (probe_on rounds zx zy vi e)
          ∙ left-probe rounds (lanes_x zx zy) (lanes_y zx zy) (counted zx zy vi) l
              (λ n k. out (suc n) (omega arith)) (omega (arith, same))
          ∙ same
    ]

    -- While a lane is inside it counts as the loop on its own point does.
    pub lane-probe :
        (rounds : ℕ) (zx zy : Vec8 F) (vi : Vec8 ℕ) (l : Lane)
        → Escapes (cx l) (cy l) rounds (zx l) (zy l)
        → vi l + rounds < 2 ^ 32
        → Native.probe ar rounds cx cy zx zy vi l
          ≡ Generic.probe ar rounds (cx l) (cy l) (zx l) (zy l) (vi l)
    unfolding Native.probe Generic.probe
    lane-probe zero zx zy vi l esc h = refl
    lane-probe (suc rounds) zx zy vi l esc h =
        elim (Bool-cases (inside (cx l) (cy l) 0 (zx l) (zy l))) [
          | inl on ↦
              let more : counted zx zy vi l ≡ vi l + 1 = ground arith in
              ap (λ v. v l) (probe_on rounds zx zy vi (test_zf-on zx zy l on))
              ∙ lane-probe rounds (lanes_x zx zy) (lanes_y zx zy) (counted zx zy vi) l
                  (Escapes-next esc on) (omega (arith, more))
              ∙ ap (Generic.probe ar rounds (cx l) (cy l) (lanes_x zx zy l) (lanes_y zx zy l)) more
              ∙ sym
                  (generic_on (cx l) (cy l) rounds (zx l) (zy l) (vi l) (apart_now esc ∙ ap not on))
          | inr out ↦
              left-probe (suc rounds) zx zy vi l (left_stays esc out) (omega arith)
              ∙ sym (
                  generic_off (cx l) (cy l) rounds (zx l) (zy l) (vi l)
                    (apart_now esc ∙ ap not out))
        ]
