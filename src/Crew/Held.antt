-- ===== src/Crew/Held.antt =====
-- How many threads hold an index that they have taken and not yet run.
use mdb.Base.{ℕ, zero, suc, ◌+◌, ◌≤◌, ◌<◌, ◌≡◌, refl, arith, dec_lt, ◌==◌, one_if}
use mdb.Claim.{Pc, idle, claimed, update}

abbrev pub held : ℕ → Pc → ℕ
held j (claimed c) = one_if (c == j)
held j _ = 0

-- Of the first n threads.
pub holders : ℕ → ℕ → (ℕ → Pc) → ℕ
holders j zero f = 0
holders j (suc n) f = holders j n f + held j (f n)

module _ (j : ℕ) (f : ℕ → Pc) (i : ℕ) (p : Pc) where
  holders-update_above : (n : ℕ) → n ≤ i → holders j n (update f i p) ≡ holders j n f
  unfolding holders
  holders-update_above zero h = refl
  holders-update_above (suc n) h = ground (arith, holders-update_above n)

  pub holders-update :
      (n : ℕ) → i < n → holders j n (update f i p) + held j (f i) ≡ holders j n f + held j p
  unfolding holders
  holders-update zero h = absurd (omega arith)
  holders-update (suc n) h = elim (dec_lt i n) [
    | yes below ↦ ground (arith, holders-update n below)
    | no last ↦ ground (arith, holders-update_above n)
  ]

pub holders-none : (j n : ℕ) (f : ℕ → Pc) → ((i : ℕ) → i < n → f i ≡ idle) → holders j n f ≡ 0
unfolding holders
holders-none j zero f h = refl
holders-none j (suc n) f h =
    ground (arith, holders-none j n f (λ i lt. h i (omega arith)), h n (omega arith))
