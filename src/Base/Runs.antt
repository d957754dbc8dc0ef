-- ===== src/Base/Runs.antt =====
-- What a run of C code comes to: a value, an access outside an object, or no end within the fuel.
use mathlib.Core.Path.{◌≡◌, refl}
use mathlib.Core.Bool.{Bool, true, false}
use Prim.Native.Nat.{ℕ, zero, suc}
use mdb.Base.Words.{add32}

pub data Outcome {ℓ} (A : Type ℓ) : Type ℓ where
  done : A → Outcome A
  fault : Outcome A
  timeout : Outcome A

infixl 5 ◌>>=◌
abbrev pub ◌>>=◌ {ℓ κ} : {A : Type ℓ} {B : Type κ} → Outcome A → (A → Outcome B) → Outcome B
done a >>= f = f a
fault >>= f = fault
timeout >>= f = timeout

pub >>=_assoc {ℓ κ μ} :
    {A : Type ℓ} {B : Type κ} {C : Type μ} (m : Outcome A) (f : A → Outcome B) (g : B → Outcome C)
    → ((m >>= f) >>= g) ≡ (m >>= λ a. f a >>= g)
>>=_assoc (done a) f g = refl
>>=_assoc fault f g = refl
>>=_assoc timeout f g = refl

-- `for (; test(x); x += step) body`, on a `uint32_t` counter: each round is one of fuel.
unfoldable pub for32 {ℓ} :
    {S : Type ℓ} → (ℕ → Bool) → ℕ → (ℕ → S → Outcome S) → ℕ → ℕ → S → Outcome S
for32 test step body zero x s = timeout
for32 test step body (suc fuel) x s = elim (test x) [
  | false ↦ done s
  | true ↦ body x s >>= λ s'. for32 test step body fuel (add32 x step) s'
]

module _ {ℓ} {S : Type ℓ} (test : ℕ → Bool) (step : ℕ) (body : ℕ → S → Outcome S) where
  pub for32_stop :
      {x : ℕ} (fuel : ℕ) (s : S) → test x ≡ false → for32 test step body (suc fuel) x s ≡ done s
  unfolding for32
  for32_stop fuel s e = rw (e, for32)

  pub for32_round :
      {x x' : ℕ} {s s' : S} (fuel : ℕ)
      → test x ≡ true
      → body x s ≡ done s'
      → add32 x step ≡ x'
      → for32 test step body (suc fuel) x s ≡ for32 test step body fuel x' s'
  unfolding for32
  for32_round fuel e f g = rw (e, for32, f, g)
