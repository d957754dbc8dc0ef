-- ===== src/Mandelbrot/Vec8.antt =====
-- kernel_modules/mandelbrot/mdb_native.c, `struct vec8` and its operations: eight lanes of floats,
-- or of 32-bit integers. `a op= b` returns the new `a`. An integer lane is a word, which the
-- conversion to a float takes as not negative.
use mdb.Base.{
  ℕ, zero, suc, ◌-◌, ◌^◌, ◌<◌, ◌≡◌, refl, ◌&&◌, Bool, true, not, List, [], ◌∷◌, ◌==◌, if◌then◌else◌,
  arith, add32, get_elem?, some,
}
use Prim.Native.Nat.{bit_and}
use mdb.Mandelbrot.{Arith}

-- The places of `f0` to `f7`, and of `i0` to `i7`.
pub data Lane : Type 0 where
  l0 l1 l2 l3 l4 l5 l6 l7 : Lane

abbrev pub Vec8 {ℓ} : Type ℓ → Type ℓ
Vec8 A = Lane → A

abbrev pub index : Lane → ℕ
index l0 = 0
index l1 = 1
index l2 = 2
index l3 = 3
index l4 = 4
index l5 = 5
index l6 = 6
index l7 = 7

abbrev pub lanes {ℓ} : {A : Type ℓ} → Vec8 A → List A
lanes v = v l0 ∷ v l1 ∷ v l2 ∷ v l3 ∷ v l4 ∷ v l5 ∷ v l6 ∷ v l7 ∷ []

-- -(b), as a word
abbrev pub mask_word : Bool → ℕ
mask_word b = if b then 2 ^ 32 - 1 else 0

unfoldable pub vec8f_set_s {ℓ} : {A : Type ℓ} → A → A → A → A → A → A → A → A → Vec8 A
vec8f_set_s s0 s1 s2 s3 s4 s5 s6 s7 l = elim l [
  | l0 ↦ s0
  | l1 ↦ s1
  | l2 ↦ s2
  | l3 ↦ s3
  | l4 ↦ s4
  | l5 ↦ s5
  | l6 ↦ s6
  | l7 ↦ s7
]

unfoldable pub vec8i_set1_s : ℕ → Vec8 ℕ
vec8i_set1_s s l = s

-- The masked sum: lanes with a mask of 0 stay.
unfoldable pub vec8i_add2_mask_s : Vec8 ℕ → Vec8 ℕ → ℕ → Vec8 ℕ
vec8i_add2_mask_s a mask i l = add32 (a l) (if mask l == 0 then 0 else i)

unfoldable pub vec8i_op_bi_v : (ℕ → ℕ → ℕ) → Vec8 ℕ → Vec8 ℕ → Vec8 ℕ
vec8i_op_bi_v op a b l = op (a l) (b l)

unfoldable pub vec8i_and2_v : Vec8 ℕ → Vec8 ℕ → Vec8 ℕ
unfolding vec8i_op_bi_v
vec8i_and2_v a b = vec8i_op_bi_v bit_and a b

unfoldable pub vec8i_test_zf : Vec8 ℕ → Bool
vec8i_test_zf v =
    (v l0 == 0)
    && ((v l1 == 0)
        && ((v l2 == 0)
            && ((v l3 == 0) && ((v l4 == 0) && ((v l5 == 0) && ((v l6 == 0) && (v l7 == 0)))))))

module _ {F : Type 0} where
  unfoldable pub vec8f_op_bi_v : (F → F → F) → Vec8 F → Vec8 F → Vec8 F
  vec8f_op_bi_v op a b l = op (a l) (b l)

  unfoldable pub vec8f_op_bi_s : (F → F → F) → Vec8 F → F → Vec8 F
  vec8f_op_bi_s op a b l = op (a l) b

  unfoldable pub vec8f_op3_bi_v : (F → F → F) → Vec8 F → Vec8 F → Vec8 F
  vec8f_op3_bi_v op a b l = op (a l) (b l)

  unfoldable pub vec8f_set1_s : F → Vec8 F
  vec8f_set1_s s l = s

module _ {F : Type 0} (ar : Arith F) where
  unfoldable pub vec8f_mul2_v : Vec8 F → Vec8 F → Vec8 F
  unfolding vec8f_op_bi_v
  vec8f_mul2_v a b = vec8f_op_bi_v ar.mul a b

  unfoldable pub vec8f_add2_v : Vec8 F → Vec8 F → Vec8 F
  unfolding vec8f_op_bi_v
  vec8f_add2_v a b = vec8f_op_bi_v ar.add a b

  unfoldable pub vec8f_div2_s : Vec8 F → F → Vec8 F
  unfolding vec8f_op_bi_s
  vec8f_div2_s a b = vec8f_op_bi_s ar.div a b

  unfoldable pub vec8f_mul3_v : Vec8 F → Vec8 F → Vec8 F
  unfolding vec8f_op3_bi_v
  vec8f_mul3_v a b = vec8f_op3_bi_v ar.mul a b

  unfoldable pub vec8f_add3_v : Vec8 F → Vec8 F → Vec8 F
  unfolding vec8f_op3_bi_v
  vec8f_add3_v a b = vec8f_op3_bi_v ar.add a b

  unfoldable pub vec8f_sub3_v : Vec8 F → Vec8 F → Vec8 F
  unfolding vec8f_op3_bi_v
  vec8f_sub3_v a b = vec8f_op3_bi_v ar.sub a b

  unfoldable pub vec8f_lt3_mask_s : Vec8 F → F → Vec8 ℕ
  vec8f_lt3_mask_s a b l = mask_word (ar.lt (a l) b)

  -- The comparison is one of floats, as `b` is a `float`.
  unfoldable pub vec8i_ne3_mask_s : Vec8 ℕ → F → Vec8 ℕ
  vec8i_ne3_mask_s a b l = mask_word (not (ar.eq (ar.of_nat (a l)) b))

  unfoldable pub vec8i_cvt2_vec8f : Vec8 ℕ → Vec8 F
  vec8i_cvt2_vec8f v l = ar.of_nat (v l)

-- A vector of zeros has no lane that is not zero.
pub test_zf-zero : (v : Vec8 ℕ) (l : Lane) → vec8i_test_zf v ≡ true → v l ≡ 0
unfolding vec8i_test_zf
test_zf-zero v l0 e = ground arith
test_zf-zero v l1 e = ground arith
test_zf-zero v l2 e = ground arith
test_zf-zero v l3 e = ground arith
test_zf-zero v l4 e = ground arith
test_zf-zero v l5 e = ground arith
test_zf-zero v l6 e = ground arith
test_zf-zero v l7 e = ground arith

-- Each place of the array `f[8]` is a lane.
pub get_elem?-lanes {ℓ} :
    {A : Type ℓ} (v : Vec8 A) (k : ℕ)
    → k < 8
    → (l : Lane) × (index l ≡ k) × (get_elem? (lanes v) k ≡ some (v l))
get_elem?-lanes v zero h = (l0, refl, refl)
get_elem?-lanes v (suc zero) h = (l1, refl, refl)
get_elem?-lanes v (suc (suc zero)) h = (l2, refl, refl)
get_elem?-lanes v (suc (suc (suc zero))) h = (l3, refl, refl)
get_elem?-lanes v (suc (suc (suc (suc zero)))) h = (l4, refl, refl)
get_elem?-lanes v (suc (suc (suc (suc (suc zero))))) h = (l5, refl, refl)
get_elem?-lanes v (suc (suc (suc (suc (suc (suc zero)))))) h = (l6, refl, refl)
get_elem?-lanes v (suc (suc (suc (suc (suc (suc (suc zero))))))) h = (l7, refl, refl)
get_elem?-lanes v (suc (suc (suc (suc (suc (suc (suc (suc k)))))))) h = absurd (omega arith)
