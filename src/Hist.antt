-- ===== src/Hist.antt =====
-- tools/hist.c: a histogram of 64-bit times. The bounds of the bins on a logarithmic scale are
-- computed in floats, and are a parameter.
pub mod Search
pub mod Linear
pub mod Counts
use mdb.Base.{
  ℕ, zero, suc, ◌+◌, ◌-◌, ◌*◌, ◌/◌, ◌%◌, ◌^◌, Bool, true, false, Option, none, some, List, [], ◌∷◌,
  ◌++◌, ltb, leb, ◌==◌, if◌then◌else◌, get_elem?, set, Outcome, done, fault, timeout, ◌>>=◌,
}

pub record Bin : Type 0 where
  pub count : ℕ
  pub min : ℕ
  pub max : ℕ

pub record Hist : Type 0 where
  pub size : ℕ
  pub bin : List Bin

-- `HIST_BOUNDL` and `HIST_BOUNDR`, the two bins behind the others.
abbrev pub bound_l : Hist → ℕ
bound_l h = h.size

abbrev pub bound_r : Hist → ℕ
bound_r h = h.size + 1

abbrev pub wrap64 : ℕ → ℕ
wrap64 n = n % 2 ^ 64

-- `bin_max` of the i-th bin. `log_bound width size i` is `(uint64_t) exp(log(width) * (i + 1) / size)`.
abbrev pub bin_max : (ℕ → ℕ → ℕ → ℕ) → ℕ → ℕ → ℕ → Bool → ℕ → ℕ
bin_max log_bound min width size log_scale i =
    if log_scale
    then wrap64 (min + log_bound width size i)
    else wrap64 (min + wrap64 (width / size * (i + 1)))

-- The loop of `perf_hist_init`, with the rounds left: bins i, i + 1, ….
unfoldable pub init_bins : ℕ → (ℕ → ℕ) → ℕ → ℕ → List Bin
init_bins zero bound bin_min i = []
init_bins (suc rounds) bound bin_min i =
    record { count = 0; min = bin_min; max = bound i } ∷ init_bins rounds bound (bound i) (i + 1)

unfoldable pub init : (ℕ → ℕ → ℕ → ℕ) → ℕ → ℕ → ℕ → Bool → Hist
init log_bound size min max log_scale =
    let width = wrap64 (max + 2 ^ 64 - min) in
    record {
      size = size;
      bin =
          init_bins size (bin_max log_bound min width size log_scale) min 0
          ++ (record { count = 0; min = min; max = min }
              ∷ record { count = 0; min = max; max = max }
              ∷ []);
    }

pub data Range : Type 0 where
  below inside above : Range

-- -1, 0 and 1
abbrev pub check_range : Bin → ℕ → Range
check_range b val = if ltb val b.min then below else if leb b.max val then above else inside

-- The loop of `perf_hist_bsearch`. `r` goes down to -1, and is held as `r1`, its successor. The
-- cases hand back the index found, or `l`.
pub data Found : Type 0 where
  at : ℕ → Found
  out : ℕ → Found

search_at : Option Bin → ℕ → Outcome Range
search_at none val = fault
search_at (some b) val = done (check_range b val)

unfoldable pub search : ℕ → List Bin → ℕ → ℕ → ℕ → Outcome Found
unfolding search_at
search zero bins val l r1 = timeout
search (suc fuel) bins val l r1 = elim (ltb l r1) [
  | false ↦ done (out l)
  | true ↦
      let m = l + (r1 - 1 - l) / 2 in
      search_at (get_elem? bins m) val >>= elim [
        | inside ↦ done (at m)
        | above ↦ search fuel bins val (m + 1) r1
        | below ↦ search fuel bins val l m
      ]
]

abbrev pub index_of : Hist → Found → ℕ
index_of h (at m) = m
index_of h (out l) = if l == 0 then bound_l h else bound_r h

-- `hist->size - 1` is computed in 32 bits, and what is returned is an `int`.
unfoldable pub bsearch : Hist → ℕ → Outcome ℕ
unfolding search
bsearch h val =
    let r1 = (h.size + 2 ^ 32 - 1) % 2 ^ 32 + 1 in
    search (suc r1) h.bin val 0 r1 >>= λ f. done (index_of h f % 2 ^ 32)

bump : Hist → ℕ → Option Bin → Outcome Hist
bump h i none = fault
bump h i (some b) =
    done (record h { bin = set h.bin i (record b { count = wrap64 (b.count + 1) }) })

-- A negative index is outside the array.
unfoldable pub add : Hist → ℕ → Outcome Hist
unfolding bump bsearch
add h val = bsearch h val >>= λ i. if ltb i (2 ^ 31) then bump h i (get_elem? h.bin i) else fault
