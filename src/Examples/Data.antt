-- ===== src/Examples/Data.antt =====
-- The surface of surface/surface.c, and the histogram of tools/hist.c.
use mdb.Base.{
  ℕ, zero, suc, ◌+◌, ◌*◌, ◌<◌, ◌≡◌, refl, true, false, some, List, [], ◌∷◌, arith, get_elem?, done,
}
use mdb.Surface
use mdb.Surface.Pixels.{IsValid, holding, row_pixel, set_pixels_lem}
use mdb.Hist
use mdb.Hist.Linear.{linear_gap}
use mdb.Hist.Search.{IsPartition, IsIndex, Returns, bsearch_lem}

abbrev zero_value : ℕ
zero_value = 0

-- A surface of three by two pixels, whose values are numbers.
abbrev six_cells : List ℕ
six_cells = 0 ∷ 0 ∷ 0 ∷ 0 ∷ 0 ∷ 0 ∷ []

abbrev small : Surface.Surface ℕ
small = record { buffer = some six_cells; width = 3; height = 2; data_need_free = true }

small-IsValid : IsValid small six_cells
small-IsValid = record { size = refl; area = omega arith; wide = omega arith }

-- The third of three values falls off the row.
clipped :
    Surface.set_pixels small 1 1 3 (7 ∷ 8 ∷ 9 ∷ [])
    ≡ done (holding small (0 ∷ 0 ∷ 0 ∷ 0 ∷ 7 ∷ 8 ∷ []))
unfolding Surface.set_pixels
clipped = refl

set_pixels_lem_example :
    (cells' : List ℕ) × (Surface.set_pixels (holding small six_cells) 1 1 3 (7 ∷ 8 ∷ 9 ∷ [])
      ≡ done (holding small cells'))
    × IsValid small cells'
    × (get_elem? cells' (1 * 3 + 2) ≡ row_pixel six_cells (7 ∷ 8 ∷ 9 ∷ []) 3 1 1 3 2 1)
set_pixels_lem_example =
    set_pixels_lem small {cells = six_cells} 1 1 3 (7 ∷ 8 ∷ 9 ∷ []) {px = 2} {py = 1} small-IsValid
      (omega arith) (omega arith) (omega arith) (omega arith)

abbrev no_log : ℕ → ℕ → ℕ → ℕ
no_log width size i = 0

-- Three bins between 0 and 10, which they fill up to 9.
abbrev three_bins : Hist.Hist
three_bins = record {
  size = 3;
  bin =
      record { count = 0; min = 0; max = 3 }
      ∷ record { count = 0; min = 3; max = 6 }
      ∷ record { count = 0; min = 6; max = 9 }
      ∷ record { count = 0; min = 0; max = 0 }
      ∷ record { count = 0; min = 10; max = 10 }
      ∷ [];
}

init_three : Hist.init no_log 3 0 10 false ≡ three_bins
unfolding Hist.init Hist.init_bins
init_three = refl

abbrev thirds : ℕ → ℕ
thirds i = 3 * i

bins_at :
    (i : ℕ)
    → i < 3
    → (c : ℕ) × (get_elem? three_bins.bin i
        ≡ some (record { count = c; min = 3 * i; max = 3 * suc i }))
bins_at zero h = (0, refl)
bins_at (suc zero) h = (0, refl)
bins_at (suc (suc zero)) h = (0, refl)
bins_at (suc (suc (suc i))) h = absurd (omega arith)

thirds-IsPartition : IsPartition three_bins.bin 3 thirds
thirds-IsPartition = record { mono = λ i j h. omega arith; bin_at = bins_at }

bsearch_lem_example : Returns (IsIndex thirds 3 7) (Hist.bsearch three_bins 7)
bsearch_lem_example = bsearch_lem {h = three_bins} thirds-IsPartition (omega arith) (omega arith) 7

-- 9 is past the three bins, though below 10.
linear_gap_example : Hist.bsearch (Hist.init no_log 3 0 10 false) 9 ≡ done 4
linear_gap_example =
    linear_gap no_log 3 {min = 0} {max = 10} (omega arith) (omega arith) 9 (omega arith)
      (omega arith) (omega arith) (omega arith)
