-- ===== src/Features/Masks.antt =====
-- `cpu_check_features` on every mask of the ten features, by computation.
use mdb.Base.{
  ℕ, zero, suc, ◌<◌, ◌≡◌, refl, dec_lt, Bool, true, false, ◌&&◌, ◌==◌, if◌then◌else◌, arith,
}
use mathlib.Core.Path.{fun_ext}
use mdb.Features.{Name, cpu_check_features, probes, probe}

-- The test on all numbers below n.
unfoldable pub all_below : ℕ → (ℕ → Bool) → Bool
all_below zero p = true
all_below (suc n) p = p n && all_below n p

pub all_below-holds : (n i : ℕ) (p : ℕ → Bool) → all_below n p ≡ true → i < n → p i ≡ true
unfolding all_below
all_below-holds zero i p e h = absurd (omega arith)
all_below-holds (suc n) i p e h = elim (dec_lt i n) [
  | yes below ↦ all_below-holds n i p (ground (arith, e)) below
  | no top ↦ let last : i ≡ n = omega arith in rw last (ground (arith, e))
]

masks :
    (b : Bool) → all_below 1024 (λ m. cpu_check_features (λ _. b) m == (if b then 0 else m)) ≡ true
unfolding all_below cpu_check_features probes probe
masks true = refl
masks false = refl

-- For any mask of the ten features: a processor that has all of them lacks none, and one that has
-- none of them lacks those of the mask.
pub cpu_check_features-masks :
    (supports : Name → Bool) (b : Bool) (mask : ℕ)
    → ((n : Name) → supports n ≡ b)
    → mask < 1024
    → cpu_check_features supports mask ≡ (if b then 0 else mask)
cpu_check_features-masks supports b mask same h =
    let t =
      all_below-holds 1024 mask (λ m. cpu_check_features (λ _. b) m == (if b then 0 else m))
        (masks b) h in
    let e : supports ≡ (λ _. b) = fun_ext same in rw e (ground (arith, t))
