-- ===== src/Bench/Summary.antt =====
-- What the summary of a benchmark says of the times, however the threads interleave.
use mdb.Base.{ℕ, ◌+◌, ◌%◌, ◌^◌, ◌≤◌, ◌<◌, ◌≡◌, Bool, List, [], ◌∷◌, arith, ℕ_discrete, length}
use mathlib.Core.Logic.{if_pos, if_neg}
use mdb.Bench.{
  Shared, Pc, idle, load_min, test_min, swap_min, load_max, test_max, swap_max, add_total,
  add_count, Move, measure, loads_min, above_min, past_min, sets_min, misses_min, fails_min,
  loads_max, below_max, past_max, sets_max, misses_max, fails_max, adds, counts, Pool, update, Step,
  pick, create, Reach, start, later,
}

abbrev pub sum : List ℕ → ℕ
sum [] = 0
sum (n ∷ ns) = n + sum ns

-- Every number of the list is between the two.
abbrev pub AllWithin : ℕ → ℕ → List ℕ → Type 0
AllWithin lo hi [] = Unit
AllWithin lo hi (n ∷ ns) = (lo ≤ n) × (n ≤ hi) × AllWithin lo hi ns

-- What the place of a thread says about the shared values.
abbrev IsAhead : Shared → Pc → Type 0
IsAhead m idle = Unit
IsAhead m (load_min e) = Unit
IsAhead m (test_min e seen) = m.min ≤ seen
IsAhead m (swap_min e seen) = (m.min ≤ seen) × (e < seen)
IsAhead m (load_max e) = m.min ≤ e
IsAhead m (test_max e seen) = (m.min ≤ e) × (seen ≤ m.max)
IsAhead m (swap_max e seen) = (m.min ≤ e) × (seen ≤ m.max) × (seen < e)
IsAhead m (add_total e) = (m.min ≤ e) × (e ≤ m.max)
IsAhead m (add_count e) = (m.min ≤ e) × (e ≤ m.max)

AllWithin-mono :
    (lo hi lo' hi' : ℕ) (ns : List ℕ)
    → lo' ≤ lo
    → hi ≤ hi'
    → AllWithin lo hi ns
    → AllWithin lo' hi' ns
AllWithin-mono lo hi lo' hi' [] p q a = tt
AllWithin-mono lo hi lo' hi' (n ∷ ns) p q a =
    (omega (arith, a.0), omega (arith, a.1), AllWithin-mono lo hi lo' hi' ns p q a.2)

IsAhead-mono :
    (m m' : Shared) (p : Pc) → m'.min ≤ m.min → m.max ≤ m'.max → IsAhead m p → IsAhead m' p
IsAhead-mono m m' idle h k a = tt
IsAhead-mono m m' (load_min e) h k a = tt
IsAhead-mono m m' p h k a = ground arith

-- What the shared part keeps.
pub record Kept (m : Shared) : Type 0 where
  pub within : AllWithin m.min m.max m.counted
  pub sums : m.total ≡ sum m.added % 2 ^ 64
  pub counts : m.block_count ≡ length m.counted % 2 ^ 64

record Moved (m m' : Shared) (p' : Pc) : Type 0 where
  lower : m'.min ≤ m.min
  higher : m.max ≤ m'.max
  ahead : IsAhead m' p'
  kept : Kept m'

same : {m : Shared} {p : Pc} → IsAhead m p → Kept m → Moved m m p
same a k = record { lower = omega arith; higher = omega arith; ahead = a; kept = k }

pub record Inv (s : Pool) : Type 0 where
  pub kept : Kept s.mem
  pub ahead : (i : ℕ) → IsAhead s.mem (s.pc i)

module _ {weak : Bool} where
  Move-Moved :
      {m m' : Shared} {p p' : Pc} → Move weak m p m' p' → IsAhead m p → Kept m → Moved m m' p'
  Move-Moved {m} (sets_min {e} h) a k = record {
    lower = omega (arith, a, h);
    higher = omega arith;
    ahead = omega arith;
    kept = record {
      within =
          AllWithin-mono m.min m.max e m.max m.counted (omega (arith, a, h)) (omega arith) k.within;
      sums = k.sums;
      counts = k.counts;
    };
  }
  Move-Moved {m} (sets_max {e} h) a k = record {
    lower = omega arith;
    higher = omega (arith, a, h);
    ahead = omega (arith, a);
    kept = record {
      within =
          AllWithin-mono m.min m.max m.min e m.counted (omega arith) (omega (arith, a, h)) k.within;
      sums = k.sums;
      counts = k.counts;
    };
  }
  Move-Moved {m} (adds {e}) a k = record {
    lower = omega arith;
    higher = omega arith;
    ahead = a;
    kept = record { within = k.within; sums = omega (arith, k.sums); counts = k.counts };
  }
  Move-Moved {m} (counts {e}) a k = record {
    lower = omega arith;
    higher = omega arith;
    ahead = tt;
    kept = record {
      within = (a.0, a.1, k.within);
      sums = k.sums;
      counts = omega (arith, k.counts);
    };
  }
  Move-Moved (measure e h) a k = record {
    lower = omega arith;
    higher = omega arith;
    ahead = tt;
    kept = record { within = k.within; sums = k.sums; counts = k.counts };
  }
  Move-Moved loads_min a k = same (omega arith) k
  Move-Moved (above_min h) a k = same (omega arith) k
  Move-Moved (past_min h) a k = same (omega (arith, a)) k
  Move-Moved (misses_min h) a k = same (omega arith) k
  Move-Moved (fails_min h) a k = same (omega arith) k
  Move-Moved loads_max a k = same (omega (arith, a)) k
  Move-Moved (below_max h) a k = same (omega (arith, a)) k
  Move-Moved (past_max h) a k = same (omega (arith, a)) k
  Move-Moved (misses_max h) a k = same (omega (arith, a)) k
  Move-Moved (fails_max h) a k = same (omega (arith, a)) k

  Step-Inv : {s t : Pool} → Step weak s t → Inv s → Inv t
  Step-Inv {s} (pick i {m = m'} {p = p'} mv) inv =
      let k = Move-Moved mv (inv.ahead i) inv.kept in
      record { kept = k.kept; ahead = λ j. ahead_at j k }
    where
      ahead_at : (j : ℕ) → Moved s.mem m' p' → IsAhead m' (update s.pc i p' j)
      ahead_at j k = elim (ℕ_discrete i j) [
        | yes e ↦ rw (if_pos (ℕ_discrete i j) e) k.ahead
        | no ne ↦
            rw (if_neg (ℕ_discrete i j) ne)
              (IsAhead-mono s.mem m' (s.pc j) k.lower k.higher (inv.ahead j))
      ]

  pub Reach-Inv : {s : Pool} → Reach weak s → Inv s
  unfolding create
  Reach-Inv start = record {
    kept = record { within = tt; sums = omega arith; counts = omega arith };
    ahead = λ i. tt;
  }
  Reach-Inv (later r st) = Step-Inv st (Reach-Inv r)

  -- However many threads measure blocks, and however they interleave: the time of every block that
  -- has been counted lies between the least and the greatest time kept, the sum kept is that of the
  -- times added, and the count kept that of the blocks counted, both modulo 2^64.
  pub summary_lem :
      {s : Pool}
      → Reach weak s
      → AllWithin s.mem.min s.mem.max s.mem.counted
        × (s.mem.total ≡ sum s.mem.added % 2 ^ 64)
        × (s.mem.block_count ≡ length s.mem.counted % 2 ^ 64)
  summary_lem r = let k = (Reach-Inv r).kept in (k.within, k.sums, k.counts)
