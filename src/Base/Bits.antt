-- ===== src/Base/Bits.antt =====
-- `&` with a word of ones or of zeros.
use Prim.Native.Nat.{
  ℕ, zero, suc, ◌+◌, ◌-◌, ◌/◌, ◌^◌, ◌≤◌, ◌<◌, min, bit_and, digits, bit_and-bitwise,
}
use mathlib.Core.Path.{◌≡◌, refl, ◌∙◌}
use native.Mathlib.Omega.{arith}

digits-ones : (n k a b : ℕ) → a ≤ n → a < 2 ^ k → b + 1 ≡ 2 ^ k → digits (λ _. zero) min n a b ≡ a
digits-ones zero k a b h p e = omega arith
digits-ones (suc n) k zero b h p e = refl
digits-ones (suc n) zero (suc a) b h p e = absurd (omega arith)
digits-ones (suc n) (suc k) (suc a) b h p e =
    omega (arith, digits-ones n k (suc a / 2) (b / 2) (omega arith) (omega arith) (omega arith))

pub bit_and-ones : (a : ℕ) → a < 2 ^ 32 → bit_and a (2 ^ 32 - 1) ≡ a
bit_and-ones a h =
    bit_and-bitwise a (2 ^ 32 - 1) ∙ digits-ones a 32 a (2 ^ 32 - 1) (omega arith) h refl

digits-zeros : (n a : ℕ) → digits (λ _. zero) min n a 0 ≡ 0
digits-zeros zero a = refl
digits-zeros (suc n) zero = refl
digits-zeros (suc n) (suc a) = omega (arith, digits-zeros n (suc a / 2))

pub bit_and-zeros : (a : ℕ) → bit_and a 0 ≡ 0
bit_and-zeros a = bit_and-bitwise a 0 ∙ digits-zeros a a
