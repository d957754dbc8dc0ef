-- ===== src/Hist/Linear.antt =====
-- The bins of `perf_hist_init` on a linear scale.
use mdb.Base.{
  ℕ, zero, suc, ◌+◌, ◌-◌, ◌*◌, ◌/◌, ◌^◌, ◌≤◌, ◌<◌, ◌≡◌, refl, ap, inl, inr, false, some, List, [],
  ◌∷◌, ◌++◌, arith, length, length-append, get_elem?, done,
}
use native.Mathlib.Nat.{div-mul-le_self}
use mdb.Hist.{Bin, init_bins, init, bin_max, bsearch, wrap64}
use mdb.Hist.Search.{IsPartition, IsIndex, Returns, bsearch_lem}

length-init_bins : (n : ℕ) (bound : ℕ → ℕ) (lo i : ℕ) → length (init_bins n bound lo i) ≡ n
unfolding init_bins
length-init_bins zero bound lo i = refl
length-init_bins (suc n) bound lo i = ap suc (length-init_bins n bound (bound i) (i + 1))

-- Where `bound` gives the ends b 1, b 2, …, the bins run from b k to b (k + 1).
init_bins-at :
    (n : ℕ) (bound b : ℕ → ℕ) (k : ℕ) (rest : List Bin) (j : ℕ)
    → ((i : ℕ) → i < k + n → bound i ≡ b (suc i))
    → j < n
    → get_elem? (init_bins n bound (b k) k ++ rest) j
      ≡ some (record { count = 0; min = b (k + j); max = b (suc (k + j)) })
unfolding init_bins
init_bins-at zero bound b k rest j e h = absurd (omega arith)
init_bins-at (suc n) bound b k rest zero e h =
    let same : k + 0 ≡ k = omega arith in rw (same, e k (omega arith))
init_bins-at (suc n) bound b k rest (suc j) e h =
    let next : suc k ≡ k + 1 = omega arith in
    let at_j : k + 1 + j ≡ k + suc j = omega arith in
    rw (e k (omega arith), next, ← at_j)
      (init_bins-at n bound b (k + 1) rest j (λ i p. e i (omega arith)) (omega arith))

init_bins-from :
    (n : ℕ) (bound b : ℕ → ℕ) (lo : ℕ) (rest : List Bin) (j : ℕ)
    → ((i : ℕ) → i < n → bound i ≡ b (suc i))
    → lo ≡ b 0
    → j < n
    → get_elem? (init_bins n bound lo 0 ++ rest) j
      ≡ some (record { count = 0; min = b j; max = b (suc j) })
init_bins-from n bound b lo rest j e start h =
    let same : 0 + j ≡ j = omega arith in
    let bins = init_bins-at n bound b 0 rest j (λ i p. e i (omega arith)) h in
    rw start (rw same at bins)

-- The ends of the bins: `size` steps of one width from `min` on.
abbrev pub edge : ℕ → ℕ → ℕ → ℕ → ℕ
edge min max size i = min + (max - min) / size * i

step-le : (w size i : ℕ) → i ≤ size → w / size * i ≤ w
step-le w size i h = grind (arith, div-mul-le_self w size)

edge_mono : (min max size i j : ℕ) → i ≤ j → edge min max size i ≤ edge min max size j
edge_mono min max size i j h = grind arith

edge-zero : (min max size : ℕ) → edge min max size 0 ≡ min
edge-zero min max size = grind arith

width-lem : (min max : ℕ) → min ≤ max → max < 2 ^ 64 → wrap64 (max + 2 ^ 64 - min) ≡ max - min
width-lem min max order word = omega arith

module _ (log_bound : ℕ → ℕ → ℕ → ℕ) (size : ℕ) {min max : ℕ} (order : min ≤ max)
    (word : max < 2 ^ 64) where
  bin_max-edge :
      (i : ℕ)
      → i < size
      → bin_max log_bound min (max - min) size false i ≡ edge min max size (suc i)
  bin_max-edge i h =
      let next : suc i ≡ i + 1 = omega arith in
      rw next (omega (arith, step-le (max - min) size (i + 1) (omega arith)))

  init-bin_at :
      (i : ℕ)
      → i < size
      → get_elem? (init log_bound size min max false).bin i
        ≡ some (record { count = 0; min = edge min max size i; max = edge min max size (suc i) })
  unfolding init
  init-bin_at i h =
      let rest =
        record { count = 0; min = min; max = min }
        ∷ record { count = 0; min = max; max = max }
        ∷ [] in
      let bins =
        init_bins-from size (bin_max log_bound min (max - min) size false) (edge min max size) min
          rest i bin_max-edge (omega (arith, edge-zero min max size)) h in
      rw (width-lem min max order word) bins

  pub init-IsPartition :
      IsPartition (init log_bound size min max false).bin size (edge min max size)
  init-IsPartition = record { mono = edge_mono min max size; bin_at = λ i h. (0, init-bin_at i h) }

  pub init-length : length (init log_bound size min max false).bin ≡ size + 2
  unfolding init
  init-length = rw (length-append, length-init_bins) refl

  -- For a 64-bit range whose minimum is not above its maximum, and at least one bin and fewer than
  -- 2^31 - 1: `perf_hist_init` on a linear scale gives `size + 2` bins, and a search among them
  -- returns the one of the first `size` that holds the value, each of them one step wide from the
  -- minimum on, or one of the two last for a value below all bins or above all.
  pub linear_bsearch :
      (val : ℕ)
      → 0 < size
      → size + 2 ≤ 2 ^ 31
      → (length (init log_bound size min max false).bin ≡ size + 2)
        × Returns
            (IsIndex (edge min max size) size val)
            (bsearch (init log_bound size min max false) val)
  unfolding init
  linear_bsearch val pos small = (
    init-length,
    bsearch_lem {h = init log_bound size min max false} init-IsPartition pos small val,
  )

  -- For a 64-bit range whose minimum is not above its maximum, and at least one bin and fewer than
  -- 2^31 - 1: on a linear scale a value from the last bin's end on is taken for one above the
  -- range though it is below the maximum.
  pub linear_gap :
      (val : ℕ)
      → 0 < size
      → size + 2 ≤ 2 ^ 31
      → edge min max size size ≤ val
      → val < max
      → bsearch (init log_bound size min max false) val ≡ done (size + 1)
  unfolding init
  linear_gap val pos small gap inside =
      let found =
        bsearch_lem {h = init log_bound size min max false} init-IsPartition pos small val in
      let i = found.0 in
      let low : edge min max size 0 ≤ edge min max size size =
        edge_mono min max size 0 size (omega arith) in
      elim found.2 [
        | inl here ↦
            absurd
              (omega (arith, edge_mono min max size (suc i) size (omega (arith, here.0)), here))
        | inr (inl under) ↦ absurd (omega (arith, under))
        | inr (inr over) ↦ rw (found.1, over.0) refl
      ]
