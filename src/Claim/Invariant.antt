-- ===== src/Claim/Invariant.antt =====
-- What every interleaving of `rsched_queue_pop` keeps.
use mdb.Base.{
  ◌==◌, one_if, dec_lt, ℕ, zero, suc, ◌+◌, ◌^◌, ◌≤◌, ◌<◌, ◌≡◌, refl, Bool, List, [], ◌∷◌, arith,
  add32, ℕ_discrete,
}
use mathlib.Core.Logic.{if_pos, if_neg}
use mdb.Claim.{
  Shared, Pc, idle, expects, claimed, empty, Move, load_empty, load_task, win, lose_empty,
  lose_task, spurious_empty, spurious_task, again, Pool, update, Step, pick, Reach, start, later,
}

-- n - 1, …, 1, 0
abbrev pub countdown : ℕ → List ℕ
countdown zero = []
countdown (suc n) = n ∷ countdown n

-- How often a number stands in a list.
abbrev pub times : ℕ → List ℕ → ℕ
times j [] = 0
times j (k ∷ ks) = one_if (k == j) + times j ks

pub times-none : (j n : ℕ) → n ≤ j → times j (countdown n) ≡ 0
times-none j zero h = refl
times-none j (suc n) h = ground (arith, times-none j n)

pub times-countdown : (j n : ℕ) → j < n → times j (countdown n) ≡ 1
times-countdown j zero h = absurd (omega arith)
times-countdown j (suc n) h = elim (dec_lt j n) [
  | yes below ↦ ground (arith, times-countdown j n below)
  | no top ↦ ground (arith, times-none j n (omega arith))
]

-- What the place of a thread says about the counter.
abbrev pub IsFresh : ℕ → Shared → Pc → Type 0
IsFresh len m idle = Unit
IsFresh len m (expects c) = c ≤ len
IsFresh len m (claimed c) = c < m.counter
IsFresh len m empty = len ≤ m.counter

pub record Inv (len : ℕ) (s : Pool) : Type 0 where
  pub bounded : s.mem.counter ≤ len + 1
  pub exact : s.mem.taken ≡ countdown s.mem.counter
  pub fresh : (i : ℕ) → IsFresh len s.mem (s.pc i)

countdown_next : (c : ℕ) → c + 1 < 2 ^ 32 → countdown (add32 c 1) ≡ c ∷ countdown c
countdown_next c h = let e : add32 c 1 ≡ suc c = omega arith in rw e

-- The other threads' places stay right while the counter grows.
pub IsFresh-mono :
    (len : ℕ) (m m' : Shared) (p : Pc) → m.counter ≤ m'.counter → IsFresh len m p → IsFresh len m' p
IsFresh-mono len m m' idle h f = tt
IsFresh-mono len m m' (expects c) h f = f
IsFresh-mono len m m' (claimed c) h f = omega arith
IsFresh-mono len m m' empty h f = omega arith

module _ {weak : Bool} {len : ℕ} (small : len + 1 < 2 ^ 32) where
  -- What a move of one thread does to the shared part, and to its own place.
  pub Move-keeps :
      {m m' : Shared} {p p' : Pc}
      → Move weak len m p m' p'
      → IsFresh len m p
      → m.counter ≤ len + 1
      → m.taken ≡ countdown m.counter
      → (m.counter ≤ m'.counter)
        × (m'.counter ≤ len + 1)
        × (m'.taken ≡ countdown m'.counter)
        × IsFresh len m' p'
  Move-keeps (win {c} h) f b e = ground (arith, countdown_next c)
  Move-keeps (load_empty h) f b e = ground arith
  Move-keeps (load_task h) f b e = ground arith
  Move-keeps (lose_empty h k) f b e = ground arith
  Move-keeps (lose_task h k) f b e = ground arith
  Move-keeps (spurious_empty h k) f b e = ground arith
  Move-keeps (spurious_task h k) f b e = ground arith
  Move-keeps again f b e = ground arith

  Step-Inv : {n : ℕ} {s t : Pool} → Step weak n len s t → Inv len s → Inv len t
  Step-Inv {s = s} (pick i {m = m'} {p = p'} lt mv) inv =
      let k = Move-keeps mv (inv.fresh i) inv.bounded inv.exact in
      record { bounded = k.1; exact = k.2; fresh = λ j. fresh_at j }
    where
      fresh_at : (j : ℕ) → IsFresh len m' (update s.pc i p' j)
      fresh_at j = elim (ℕ_discrete i j) [
        | yes e ↦
            rw (if_pos (ℕ_discrete i j) e) (Move-keeps mv (inv.fresh i) inv.bounded inv.exact).3
        | no ne ↦ rw (if_neg (ℕ_discrete i j) ne) (
            IsFresh-mono len s.mem m' (s.pc j) (Move-keeps mv (inv.fresh i) inv.bounded inv.exact).0
              (inv.fresh j))
      ]

  pub Reach-Inv : {n : ℕ} {s : Pool} → Reach weak n len s → Inv len s
  Reach-Inv start = record { bounded = omega arith; exact = refl; fresh = λ i. tt }
  Reach-Inv (later r st) = Step-Inv st (Reach-Inv r)

  -- For a queue of fewer than 2^32 - 1 tasks, whatever the threads and their interleaving: the
  -- indices handed out are those below the counter, each once and in order, and the counter passes
  -- the length by one at most.
  pub claims_exact :
      {n : ℕ} {s : Pool}
      → Reach weak n len s
      → (s.mem.taken ≡ countdown s.mem.counter) × (s.mem.counter ≤ len + 1)
  claims_exact r = ((Reach-Inv r).exact, (Reach-Inv r).bounded)

  -- An index that a thread holds has been handed out exactly once.
  pub claimed-once :
      {n : ℕ} {s : Pool} {i c : ℕ}
      → Reach weak n len s
      → s.pc i ≡ claimed c
      → times c s.mem.taken ≡ 1
  claimed-once {s} {i} {c} r e =
      let inv = Reach-Inv r in
      let below : c < s.mem.counter = rw e at (inv.fresh i) in
      rw inv.exact (times-countdown c s.mem.counter below)

  -- For a queue of fewer than 2^32 - 1 tasks, whatever the threads and their interleaving: once
  -- `rsched_queue_pop` has returned `NULL` to some thread, every index of the queue has been
  -- handed out, exactly once.
  drained-once :
      {n : ℕ} {s : Pool} {i j : ℕ}
      → Reach weak n len s
      → s.pc i ≡ empty
      → j < len
      → times j s.mem.taken ≡ 1
  drained-once {s} {i} {j} r e h =
      let inv = Reach-Inv r in
      let full : len ≤ s.mem.counter = rw e at (inv.fresh i) in
      rw inv.exact (times-countdown j s.mem.counter (omega arith))
