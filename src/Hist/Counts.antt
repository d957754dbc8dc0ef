-- ===== src/Hist/Counts.antt =====
-- The counts of the bins, all together, and what `perf_hist_add` leaves of the bounds.
use mdb.Base.{
  ℕ, zero, suc, ◌+◌, ◌^◌, ◌≤◌, ◌<◌, ◌≡◌, refl, ap, sym, ◌∙◌, some, List, [], ◌∷◌, ◌++◌, Bool, arith,
  length, length-set, get_elem?, get_elem?-set_self, get_elem?-set_ne, set, ℕ_discrete, done, subst,
}
use mathlib.Core.Option.{some-injective}
use mdb.Hist.{Hist, Bin, add, wrap64, init, init_bins}
use mdb.Hist.Search.{IsPartition, add_lem}

abbrev pub counts : List Bin → ℕ
counts [] = 0
counts (x ∷ xs) = x.count + counts xs

counts-set :
    (xs : List Bin) (i : ℕ) (x v : Bin)
    → i < length xs
    → get_elem? xs i ≡ some x
    → counts (set xs i v) + x.count ≡ counts xs + v.count
counts-set [] i x v h e = absurd (omega arith)
counts-set (y ∷ xs) zero x v h e =
    let same = ap (λ b. b.count) (some-injective y x e) in omega (arith, same)
counts-set (y ∷ xs) (suc i) x v h e = omega (arith, counts-set xs i x v (omega arith) e)

count-le :
    (xs : List Bin) (i : ℕ) (x : Bin)
    → i < length xs
    → get_elem? xs i ≡ some x
    → x.count ≤ counts xs
count-le [] i x h e = absurd (omega arith)
count-le (y ∷ xs) zero x h e =
    let same = ap (λ b. b.count) (some-injective y x e) in omega (arith, same)
count-le (y ∷ xs) (suc i) x h e = omega (arith, count-le xs i x (omega arith) e)

module _ {b : ℕ → ℕ} where
  set-IsPartition :
      (bins : List Bin) (size i : ℕ) (x : Bin) (c : ℕ)
      → IsPartition bins size b
      → i < length bins
      → get_elem? bins i ≡ some x
      → IsPartition (set bins i (record x { count = c })) size b
  set-IsPartition bins size i x c part inside found = record {
    mono = part.mono;
    bin_at = λ j h. elim (ℕ_discrete i j) [
      | yes e ↦
          let (c', at) = part.bin_at i (omega arith) in
          subst
            (λ j.
              (c : ℕ) × (get_elem? (set bins i v) j
                ≡ some (record { count = c; min = b j; max = b (suc j) })))
            e
            (
              c,
              get_elem?-set_self bins i v inside
                  ∙ ap {A = Bin} (λ r. some (record r { count = c }))
                      (some-injective x _ (sym found ∙ at)),
            )
      | no ne ↦ let (c', at) = part.bin_at j h in (c', get_elem?-set_ne bins i j v ne ∙ at)
    ];
  }
    where
      v : Bin
      v = record x { count = c }

  -- What one more time leaves of a histogram.
  pub add-keeps :
      {h : Hist} (val : ℕ)
      → IsPartition h.bin h.size b
      → 0 < h.size
      → h.size + 2 ≤ 2 ^ 31
      → length h.bin ≡ h.size + 2
      → counts h.bin + 1 < 2 ^ 64
      → (h' : Hist) × (add h val ≡ done h')
        × IsPartition h'.bin h'.size b
        × (h'.size ≡ h.size)
        × (length h'.bin ≡ length h.bin)
        × (counts h'.bin ≡ counts h.bin + 1)
  add-keeps {h} val part pos small len room =
      let (i, at, (x, found, e)) = add_lem part pos small val len in
      let inside : i < length h.bin = omega (arith, at, len) in
      let le = count-le h.bin i x inside found in
      let v = record x { count = wrap64 (x.count + 1) } in
      (
        record h { bin = set h.bin i v },
        e,
        set-IsPartition h.bin h.size i x _ part inside found,
        refl,
        length-set h.bin i v,
        omega (arith, counts-set h.bin i x v inside found, le),
      )

counts-append : (xs ys : List Bin) → counts (xs ++ ys) ≡ counts xs + counts ys
counts-append [] ys = omega arith
counts-append (x ∷ xs) ys = omega (arith, counts-append xs ys)

counts-init_bins : (rounds : ℕ) (bound : ℕ → ℕ) (m i : ℕ) → counts (init_bins rounds bound m i) ≡ 0
unfolding init_bins
counts-init_bins zero bound m i = refl
counts-init_bins (suc rounds) bound m i =
    omega (arith, counts-init_bins rounds bound (bound i) (i + 1))

pub counts-init :
    (log_bound : ℕ → ℕ → ℕ → ℕ) (size min max : ℕ) (log_scale : Bool)
    → counts (init log_bound size min max log_scale).bin ≡ 0
unfolding init
counts-init log_bound size min max log_scale =
    counts-append (init_bins size _ min 0) _ ∙ ap (λ n. n + 0) (counts-init_bins size _ min 0)
