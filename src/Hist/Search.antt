-- ===== src/Hist/Search.antt =====
-- `perf_hist_bsearch` on bins that follow one another.
use mdb.Base.{
  ℕ, zero, suc, ◌+◌, ◌-◌, ◌/◌, ◌%◌, ◌^◌, ◌≤◌, ◌<◌, ◌≡◌, refl, ◌⊎◌, inl, inr, dec_lt, some, List,
  arith, ltb, leb, if◌then◌else◌, length, get_elem?, get_elem?-some, set, lt→ltb, le→ltb, le→leb,
  lt→leb, Outcome, done,
}
use mdb.Hist.{
  Bin, Hist, below, inside, above, Found, at, out, search_at, search, bsearch, index_of, bump, add,
  wrap64,
}

-- The bins meet at the numbers b 0 ≤ b 1 ≤ … ≤ b size.
pub record IsPartition (bins : List Bin) (size : ℕ) (b : ℕ → ℕ) : Type 0 where
  pub mono : (i j : ℕ) → i ≤ j → b i ≤ b j
  pub bin_at :
      (i : ℕ)
      → i < size
      → (c : ℕ) × (get_elem? bins i ≡ some (record { count = c; min = b i; max = b (suc i) }))

-- What a value found at an index says about the bounds.
abbrev pub IsFound : (ℕ → ℕ) → ℕ → ℕ → Found → Type 0
IsFound b size val (at m) = (m < size) × (b m ≤ val) × (val < b (suc m))
IsFound b size val (out l) = ((l ≡ 0) × (val < b 0)) ⊎ ((l ≡ size) × (b size ≤ val) × (0 < size))

abbrev pub Returns {ℓ κ} : {A : Type ℓ} → (A → Type κ) → Outcome A → Type (ℓ ⊔ κ)
Returns {A} P o = (a : A) × (o ≡ done a) × P a

module _ {bins : List Bin} {size : ℕ} {b : ℕ → ℕ} (part : IsPartition bins size b) (pos : 0 < size)
    (val : ℕ) where
  abbrev mid : ℕ → ℕ → ℕ
  mid l r1 = l + (r1 - 1 - l) / 2

  -- The range test on the bin in the middle, which exists.
  range_at :
      (l r1 : ℕ)
      → l < r1
      → r1 ≤ size
      → search_at (get_elem? bins (mid l r1)) val
        ≡ done (
            if ltb val (b (mid l r1))
            then below
            else if leb (b (suc (mid l r1))) val
            then above
            else inside)
  unfolding search_at
  range_at l r1 h k = rw ((part.bin_at (mid l r1) (omega arith)).1, search_at)

  search_out : (fuel l r1 : ℕ) → r1 ≤ l → search (suc fuel) bins val l r1 ≡ done (out l)
  unfolding search
  search_out fuel l r1 h = rw (le→ltb l r1 h, search)

  search_low :
      (fuel l r1 : ℕ)
      → l < r1
      → r1 ≤ size
      → val < b (mid l r1)
      → search (suc fuel) bins val l r1 ≡ search fuel bins val l (mid l r1)
  unfolding search
  search_low fuel l r1 h k low =
      rw (lt→ltb l r1 h, search, range_at l r1 h k, lt→ltb val (b (mid l r1)) low)

  search_high :
      (fuel l r1 : ℕ)
      → l < r1
      → r1 ≤ size
      → b (mid l r1) ≤ val
      → b (suc (mid l r1)) ≤ val
      → search (suc fuel) bins val l r1 ≡ search fuel bins val (mid l r1 + 1) r1
  unfolding search
  search_high fuel l r1 h k low high = rw (
    lt→ltb l r1 h,
    search,
    range_at l r1 h k,
    le→ltb val (b (mid l r1)) low,
    le→leb (b (suc (mid l r1))) val high,
  )

  search_here :
      (fuel l r1 : ℕ)
      → l < r1
      → r1 ≤ size
      → b (mid l r1) ≤ val
      → val < b (suc (mid l r1))
      → search (suc fuel) bins val l r1 ≡ done (at (mid l r1))
  unfolding search
  search_here fuel l r1 h k low high = rw (
    lt→ltb l r1 h,
    search,
    range_at l r1 h k,
    le→ltb val (b (mid l r1)) low,
    lt→leb (b (suc (mid l r1))) val high,
  )

  search_lem :
      (fuel l r1 : ℕ)
      → r1 - l < fuel
      → l ≤ r1
      → r1 ≤ size
      → (l ≡ 0) ⊎ (b l ≤ val)
      → (r1 ≡ size) ⊎ (val < b r1)
      → Returns (IsFound b size val) (search fuel bins val l r1)
  search_lem zero l r1 f o i lo hi = absurd (omega arith)
  search_lem (suc fuel) l r1 f o i lo hi = elim (dec_lt l r1) [
    | no over ↦ (out l, search_out fuel l r1 (omega arith), ground arith)
    | yes more ↦ elim (dec_lt val (b (mid l r1))) [
      | yes low ↦
          rw (search_low fuel l r1 more i low)
            (search_lem fuel l (mid l r1) (omega arith) (omega arith) (omega arith) lo (inr low))
      | no not_low ↦ elim (dec_lt val (b (suc (mid l r1)))) [
        | yes here ↦ (at (mid l r1), search_here fuel l r1 more i (omega arith) here, omega arith)
        | no high ↦
            (let next : suc (mid l r1) ≡ mid l r1 + 1 = omega arith in
              rw (search_high fuel l r1 more i (omega arith) (omega arith)) (
                search_lem fuel (mid l r1 + 1) r1 (omega arith) (omega arith) i
                  (inr (rw (← next) (omega arith))) hi))
      ]
    ]
  ]

-- What an index into the bins says about the bounds: a bin that holds the value, or one of the two
-- behind the others.
abbrev pub IsIndex : (ℕ → ℕ) → ℕ → ℕ → ℕ → Type 0
IsIndex b size val i =
    ((i < size) × (b i ≤ val) × (val < b (suc i)))
    ⊎ ((i ≡ size) × (val < b 0))
    ⊎ ((i ≡ size + 1) × (b size ≤ val))

module _ {h : Hist} {b : ℕ → ℕ} (part : IsPartition h.bin h.size b) (pos : 0 < h.size)
    (small : h.size + 2 ≤ 2 ^ 31) where
  index_of-IsIndex :
      (val : ℕ) (f : Found) → IsFound b h.size val f → IsIndex b h.size val (index_of h f)
  index_of-IsIndex val (at m) p = inl p
  index_of-IsIndex val (out l) p = ground arith

  IsIndex-int : (val i : ℕ) → IsIndex b h.size val i → i < 2 ^ 31
  IsIndex-int val i p = ground arith

  -- For a histogram of at least one bin and fewer than 2^31 - 1, whose bins follow one another:
  -- `perf_hist_bsearch` ends, and returns the bin that holds the value, or else the first of the
  -- two last bins for a value below all, and the second for one above all.
  pub bsearch_lem : (val : ℕ) → Returns (IsIndex b h.size val) (bsearch h val)
  unfolding bsearch
  bsearch_lem val =
      let r1 : (h.size + 2 ^ 32 - 1) % 2 ^ 32 + 1 ≡ h.size = omega arith in
      let s =
        search_lem part pos val (suc h.size) 0 h.size (omega arith) (omega arith) (omega arith)
          (inl refl) (inl refl) in
      let p = index_of-IsIndex val s.0 s.2 in
      let int : index_of h s.0 % 2 ^ 32 ≡ index_of h s.0 = omega (arith, IsIndex-int val _ p) in
      (index_of h s.0, rw (r1, s.1, int), p)

  -- For a histogram of at least one bin and fewer than 2^31 - 1, whose bins follow one another,
  -- with the two last bins in place: `perf_hist_add` adds one, modulo 2^64, to the count of the
  -- bin that holds the value, or of the one of the two last that stands for it, and changes
  -- nothing else.
  pub add_lem :
      (val : ℕ)
      → length h.bin ≡ h.size + 2
      → (i : ℕ) × IsIndex b h.size val i
        × ((x : Bin) × (get_elem? h.bin i ≡ some x)
            × (add h val
                ≡ done
                    (record h { bin = set h.bin i (record x { count = wrap64 (x.count + 1) }) })))
  unfolding add bump
  add_lem val len =
      let s = bsearch_lem val in
      let x = get_elem?-some h.bin s.0 (omega (arith, s.2)) in
      (s.0, s.2, (x.0, x.1, rw (s.1, lt→ltb s.0 (2 ^ 31) (IsIndex-int val s.0 s.2), x.1, bump)))
