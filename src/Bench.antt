-- ===== src/Bench.antt =====
-- app/benchmark.c, `benchmark_proc_fun`: threads that measure blocks, and keep the least, the
-- greatest and the sum of the times in shared atomics, one access at a time, in any order.
pub mod Summary
pub mod Attained
use mdb.Base.{
  ℕ, zero, suc, ◌+◌, ◌-◌, ◌%◌, ◌^◌, ◌≤◌, ◌<◌, ◌≡◌, ◌≢◌, Bool, true, List, [], ◌∷◌, ℕ_discrete,
}
use mathlib.Core.Logic.{ite}

abbrev pub uint64_max : ℕ
uint64_max = 2 ^ 64 - 1

-- The atomics of `struct benchmark`, and the times measured, added and counted so far, the latest
-- first.
pub record Shared : Type 0 where
  pub total : ℕ
  pub min : ℕ
  pub max : ℕ
  pub block_count : ℕ
  pub measured : List ℕ
  pub added : List ℕ
  pub counted : List ℕ

-- Where a thread stands, with its `elapsed_time` and the value that it loaded last.
pub data Pc : Type 0 where
  idle : Pc
  load_min : (elapsed : ℕ) → Pc
  test_min : (elapsed seen : ℕ) → Pc  -- at the condition of the first loop
  swap_min : (elapsed seen : ℕ) → Pc  -- before its compare-exchange
  load_max : (elapsed : ℕ) → Pc
  test_max : (elapsed seen : ℕ) → Pc
  swap_max : (elapsed seen : ℕ) → Pc
  add_total : (elapsed : ℕ) → Pc
  add_count : (elapsed : ℕ) → Pc

-- One step of a thread. With `weak`, a compare-exchange may fail though the values agree.
pub data Move (weak : Bool) (m : Shared) : Pc → Shared → Pc → Type 0 where
  measure :
      (e : ℕ) → e < 2 ^ 64 → Move weak m idle (record m { measured = e ∷ m.measured }) (load_min e)
  loads_min : {e : ℕ} → Move weak m (load_min e) m (test_min e m.min)
  above_min : {e seen : ℕ} → e < seen → Move weak m (test_min e seen) m (swap_min e seen)
  past_min : {e seen : ℕ} → seen ≤ e → Move weak m (test_min e seen) m (load_max e)
  sets_min :
      {e seen : ℕ}
      → m.min ≡ seen
      → Move weak m (swap_min e seen) (record m { min = e }) (load_max e)
  misses_min : {e seen : ℕ} → m.min ≢ seen → Move weak m (swap_min e seen) m (test_min e m.min)
  fails_min : {e seen : ℕ} → weak ≡ true → Move weak m (swap_min e seen) m (test_min e m.min)
  loads_max : {e : ℕ} → Move weak m (load_max e) m (test_max e m.max)
  below_max : {e seen : ℕ} → seen < e → Move weak m (test_max e seen) m (swap_max e seen)
  past_max : {e seen : ℕ} → e ≤ seen → Move weak m (test_max e seen) m (add_total e)
  sets_max :
      {e seen : ℕ}
      → m.max ≡ seen
      → Move weak m (swap_max e seen) (record m { max = e }) (add_total e)
  misses_max : {e seen : ℕ} → m.max ≢ seen → Move weak m (swap_max e seen) m (test_max e m.max)
  fails_max : {e seen : ℕ} → weak ≡ true → Move weak m (swap_max e seen) m (test_max e m.max)
  adds :
      {e : ℕ}
      → Move weak m
          (add_total e)
          (record m { total = (m.total + e) % 2 ^ 64; added = e ∷ m.added })
          (add_count e)
  counts :
      {e : ℕ}
      → Move weak m
          (add_count e)
          (record m { block_count = (m.block_count + 1) % 2 ^ 64; counted = e ∷ m.counted })
          idle

pub record Pool : Type 0 where
  pub mem : Shared
  pub pc : ℕ → Pc

abbrev pub update {ℓ} : {A : Type ℓ} → (ℕ → A) → ℕ → A → ℕ → A
update f i a j = ite (ℕ_discrete i j) a (f j)

pub data Step (weak : Bool) (s : Pool) : Pool → Type 0 where
  pick :
      (i : ℕ) {m : Shared} {p : Pc}
      → Move weak s.mem (s.pc i) m p
      → Step weak s (record { mem = m; pc = update s.pc i p })

-- As `benchmark_create` leaves the atomics.
unfoldable pub create : Shared
create = record {
  total = 0;
  min = uint64_max;
  max = 0;
  block_count = 0;
  measured = [];
  added = [];
  counted = [];
}

abbrev pub start_pool : Pool
start_pool = record { mem = create; pc = λ _. Pc.idle }

pub data Reach (weak : Bool) : Pool → Type 0 where
  start : Reach weak start_pool
  later : {s t : Pool} → Reach weak s → Step weak s t → Reach weak t
