-- ===== src/Features/Text.antt =====
-- The text that `cpu_features_to_str` writes, on every mask of the ten features, by computation.
use mdb.Base.{
  ℕ, ◌<◌, ◌≡◌, refl, ap, ap₂, Bool, true, false, ◌&&◌, ◌==◌, List, [], ◌∷◌, ◌++◌, ltb, leb,
  if◌then◌else◌, arith, has_flag, Outcome, done, fault, timeout,
}
use mathlib.Core.Bool.{false≢true}
use mdb.Features.{
  Told, told, too_long, names, cpu_features_to_str, tell, strcpy_feature, str_append, finish,
  terminate,
}
use mdb.Features.Masks.{all_below, all_below-holds}

-- The names of the features of a mask, in their order.
abbrev pub chosen : List (ℕ × List ℕ × Bool) → ℕ → List (List ℕ)
chosen [] mask = []
chosen (f ∷ fs) mask = if has_flag mask f.0 then f.1 ∷ chosen fs mask else chosen fs mask

-- Texts with a comma between each two.
abbrev pub separated : List (List ℕ) → List ℕ
separated [] = []
separated (a ∷ []) = a
separated (a ∷ b ∷ rest) = a ++ (44 ∷ separated (b ∷ rest))

-- What stands behind them: a comma if AVX or AVX2 is the last feature, and else the end of the text.
abbrev pub last_byte : ℕ → ℕ
last_byte mask = if leb 128 mask && ltb mask 512 then 44 else 0

abbrev expected : ℕ → List ℕ
expected mask = separated (chosen names mask) ++ (last_byte mask ∷ [])

same_text : List ℕ → List ℕ → Bool
same_text [] [] = true
same_text [] (_ ∷ _) = false
same_text (_ ∷ _) [] = false
same_text (a ∷ xs) (b ∷ ys) = (a == b) && same_text xs ys

same_text-≡ : (xs ys : List ℕ) → same_text xs ys ≡ true → xs ≡ ys
unfolding same_text
same_text-≡ [] [] e = refl
same_text-≡ [] (_ ∷ _) e = absurd (false≢true e)
same_text-≡ (_ ∷ _) [] e = absurd (false≢true e)
same_text-≡ (a ∷ xs) (b ∷ ys) e =
    ap₂ ◌∷◌ (ground (arith, e)) (same_text-≡ xs ys (ground (arith, e)))

told_as : Outcome Told → List ℕ → Bool
unfolding same_text
told_as (done (told text)) expect = same_text text expect
told_as (done too_long) expect = false
told_as fault expect = false
told_as timeout expect = false

texts : all_below 1024 (λ mask. told_as (cpu_features_to_str mask 256) (expected mask)) ≡ true
unfolding all_below told_as same_text cpu_features_to_str tell strcpy_feature str_append finish
    terminate
texts = refl

told_as-done : (o : Outcome Told) (text : List ℕ) → told_as o text ≡ true → o ≡ done (told text)
unfolding told_as
told_as-done (done (told t)) text e = ap (λ t. done (told t)) (same_text-≡ t text e)
told_as-done (done too_long) text e = absurd (false≢true e)
told_as-done fault text e = absurd (false≢true e)
told_as-done timeout text e = absurd (false≢true e)

-- For any mask of the ten features and a buffer of 256 bytes: `cpu_features_to_str` returns, and
-- writes the names of the features, separated by commas, and then the end of the text, unless AVX
-- or AVX2 is the last of them: then a comma stands there, and the text has no end.
pub cpu_features_to_str_lem :
    (mask : ℕ)
    → mask < 1024
    → cpu_features_to_str mask 256
      ≡ done (told (separated (chosen names mask) ++ (last_byte mask ∷ [])))
cpu_features_to_str_lem mask h = told_as-done (cpu_features_to_str mask 256) (expected mask) (
    all_below-holds 1024 mask (λ mask. told_as (cpu_features_to_str mask 256) (expected mask)) texts
      h)
