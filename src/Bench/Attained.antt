-- ===== src/Bench/Attained.antt =====
-- That the least and the greatest time of a benchmark are times that were measured.
use mdb.Base.{ℕ, ◌≡◌, refl, ◌⊎◌, inl, inr, Bool, List, [], ◌∷◌, ℕ_discrete}
use mathlib.Core.Logic.{if_pos, if_neg}
use mdb.Bench.{
  Shared, Pc, idle, load_min, test_min, swap_min, load_max, test_max, swap_max, add_total,
  add_count, Move, measure, loads_min, above_min, past_min, sets_min, misses_min, fails_min,
  loads_max, below_max, past_max, sets_max, misses_max, fails_max, adds, counts, Pool, update, Step,
  pick, create, Reach, start, later, uint64_max,
}

-- The number stands in the list.
abbrev pub IsOneOf : ℕ → List ℕ → Type 0
IsOneOf n [] = ⊥
IsOneOf n (k ∷ ks) = (n ≡ k) ⊎ IsOneOf n ks

-- The time that a thread holds was measured.
abbrev IsTimed : List ℕ → Pc → Type 0
IsTimed ms idle = Unit
IsTimed ms (load_min e) = IsOneOf e ms
IsTimed ms (test_min e seen) = IsOneOf e ms
IsTimed ms (swap_min e seen) = IsOneOf e ms
IsTimed ms (load_max e) = IsOneOf e ms
IsTimed ms (test_max e seen) = IsOneOf e ms
IsTimed ms (swap_max e seen) = IsOneOf e ms
IsTimed ms (add_total e) = IsOneOf e ms
IsTimed ms (add_count e) = IsOneOf e ms

IsTimed-grows : (ms : List ℕ) (n : ℕ) (p : Pc) → IsTimed ms p → IsTimed (n ∷ ms) p
IsTimed-grows ms n idle t = tt
IsTimed-grows ms n (load_min e) t = inr t
IsTimed-grows ms n (test_min e seen) t = inr t
IsTimed-grows ms n (swap_min e seen) t = inr t
IsTimed-grows ms n (load_max e) t = inr t
IsTimed-grows ms n (test_max e seen) t = inr t
IsTimed-grows ms n (swap_max e seen) t = inr t
IsTimed-grows ms n (add_total e) t = inr t
IsTimed-grows ms n (add_count e) t = inr t

pub record Inv (s : Pool) : Type 0 where
  pub least : (s.mem.min ≡ uint64_max) ⊎ IsOneOf s.mem.min s.mem.measured
  pub greatest : (s.mem.max ≡ 0) ⊎ IsOneOf s.mem.max s.mem.measured
  pub timed : (i : ℕ) → IsTimed s.mem.measured (s.pc i)

-- What a move needs, and what it hands on.
record Known (m : Shared) (p : Pc) : Type 0 where
  low : (m.min ≡ uint64_max) ⊎ IsOneOf m.min m.measured
  high : (m.max ≡ 0) ⊎ IsOneOf m.max m.measured
  own : IsTimed m.measured p

abbrev Grows : Shared → Shared → Type 0
Grows m m' = (q : Pc) → IsTimed m.measured q → IsTimed m'.measured q

later-first :
    (n k : ℕ) (ms : List ℕ) (e : ℕ) → (n ≡ e) ⊎ IsOneOf n ms → (n ≡ e) ⊎ IsOneOf n (k ∷ ms)
later-first n k ms e (inl p) = inl p
later-first n k ms e (inr p) = inr (inr p)

module _ {weak : Bool} where
  Move-Known : {m m' : Shared} {p p' : Pc} → Move weak m p m' p' → Known m p → Known m' p'
  Move-Known {m} (measure e h) k = record {
    low = later-first m.min e m.measured uint64_max k.low;
    high = later-first m.max e m.measured 0 k.high;
    own = inl refl;
  }
  Move-Known (sets_min h) k = record { low = inr k.own; high = k.high; own = k.own }
  Move-Known (sets_max h) k = record { low = k.low; high = inr k.own; own = k.own }
  Move-Known loads_min k = record { low = k.low; high = k.high; own = k.own }
  Move-Known (above_min h) k = record { low = k.low; high = k.high; own = k.own }
  Move-Known (past_min h) k = record { low = k.low; high = k.high; own = k.own }
  Move-Known (misses_min h) k = record { low = k.low; high = k.high; own = k.own }
  Move-Known (fails_min h) k = record { low = k.low; high = k.high; own = k.own }
  Move-Known loads_max k = record { low = k.low; high = k.high; own = k.own }
  Move-Known (below_max h) k = record { low = k.low; high = k.high; own = k.own }
  Move-Known (past_max h) k = record { low = k.low; high = k.high; own = k.own }
  Move-Known (misses_max h) k = record { low = k.low; high = k.high; own = k.own }
  Move-Known (fails_max h) k = record { low = k.low; high = k.high; own = k.own }
  Move-Known adds k = record { low = k.low; high = k.high; own = k.own }
  Move-Known counts k = record { low = k.low; high = k.high; own = tt }

  Move-Grows : {m m' : Shared} {p p' : Pc} → Move weak m p m' p' → Grows m m'
  Move-Grows {m} (measure e h) = λ q t. IsTimed-grows m.measured e q t
  Move-Grows _ = λ q t. t

  Step-Inv : {s t : Pool} → Step weak s t → Inv s → Inv t
  Step-Inv {s} (pick i {m = m'} {p = p'} mv) inv =
      let k = Move-Known mv (record { low = inv.least; high = inv.greatest; own = inv.timed i }) in
      record { least = k.low; greatest = k.high; timed = λ j. timed_at j k.own }
    where
      timed_at : (j : ℕ) → IsTimed m'.measured p' → IsTimed m'.measured (update s.pc i p' j)
      timed_at j own = elim (ℕ_discrete i j) [
        | yes e ↦ rw (if_pos (ℕ_discrete i j) e) own
        | no ne ↦ rw (if_neg (ℕ_discrete i j) ne) (Move-Grows mv (s.pc j) (inv.timed j))
      ]

  Reach-Inv : {s : Pool} → Reach weak s → Inv s
  unfolding create
  Reach-Inv start = record { least = inl refl; greatest = inl refl; timed = λ i. tt }
  Reach-Inv (later r st) = Step-Inv st (Reach-Inv r)

  -- The least time kept is one that was measured, or still the greatest number of 64 bits, and the
  -- greatest is one that was measured, or still 0.
  pub attained :
      {s : Pool}
      → Reach weak s
      → ((s.mem.min ≡ uint64_max) ⊎ IsOneOf s.mem.min s.mem.measured)
        × ((s.mem.max ≡ 0) ⊎ IsOneOf s.mem.max s.mem.measured)
  attained r = let inv = Reach-Inv r in (inv.least, inv.greatest)
