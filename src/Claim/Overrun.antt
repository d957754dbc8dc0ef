-- ===== src/Claim/Overrun.antt =====
-- Where `rsched_queue_pop` goes wrong: after a failed compare-exchange `cur` already holds the
-- counter, and `++cur` passes over it.
use mdb.Base.{
  ℕ, zero, suc, ◌+◌, ◌-◌, ◌^◌, ◌≤◌, ◌<◌, ◌≡◌, refl, subst, ◌∙◌, Bool, false, ◌∷◌, arith, add32,
  ℕ_discrete,
}
use mdb.Claim.{
  Shared, Pc, idle, expects, claimed, Move, load_empty, load_task, win, lose_empty, lose_task,
  spurious_empty, spurious_task, again, Pool, update, pick, start_pool, Reach, start, later,
}
use mdb.Claim.Invariant.{countdown}

-- A reachable state of two threads whose compare-exchanges fail only where the values differ.
record Seen (len : ℕ) (m : Shared) (p q : Pc) : Type 0 where
  pool : Pool
  reach : Reach false 2 len pool
  mem_is : pool.mem ≡ m
  first : pool.pc 0 ≡ p
  second : pool.pc 1 ≡ q

module _ {len : ℕ} {m m' : Shared} {p q p' : Pc} where
  first_moves : Seen len m p q → Move false len m p m' p' → Seen len m' p' q
  unfolding ℕ_discrete
  first_moves s mv = record {
    pool = record { mem = m'; pc = update s.pool.pc 0 p' };
    reach = later s.reach (pick 0 (omega arith) (rw (s.mem_is, s.first) mv));
    mem_is = refl;
    first = refl;
    second = s.second;
  }

  second_moves : Seen len m p q → Move false len m q m' p' → Seen len m' p p'
  unfolding ℕ_discrete
  second_moves s mv = record {
    pool = record { mem = m'; pc = update s.pool.pc 1 p' };
    reach = later s.reach (pick 1 (omega arith) (rw (s.mem_is, s.second) mv));
    mem_is = refl;
    first = s.first;
    second = refl;
  }

-- The counter and the indices handed out so far.
abbrev handed : ℕ → Shared
handed k = record { counter = k; taken = countdown k }

module _ {len : ℕ} (small : len + 1 < 2 ^ 32) where
  -- A compare-exchange that expects the counter of `handed k` leads to `handed (suc k)`.
  win_at : (k : ℕ) → k ≤ len → Move false len (handed k) (expects k) (handed (suc k)) (claimed k)
  win_at k h =
      let e : add32 k 1 ≡ suc k = omega arith in
      subst
        (λ n.
          Move false len (handed k) (expects k) (record { counter = n; taken = k ∷ countdown k })
            (claimed k))
        e (win refl)

  second_takes :
      {k : ℕ} {p : Pc} → k < len → Seen len (handed k) p idle → Seen len (handed (suc k)) p idle
  second_takes {k} h s =
      second_moves (second_moves (second_moves s (load_task h)) (win_at k (omega arith))) again

  warm_up : (k : ℕ) → k ≤ len → Seen len (handed k) idle idle
  warm_up zero h = record {
    pool = start_pool;
    reach = start;
    mem_is = refl;
    first = refl;
    second = refl;
  }
  warm_up (suc k) h = second_takes h (warm_up k (omega arith))

  -- The first thread loses one race two tasks before the end, and so comes to expect the length.
  raced : (k : ℕ) → k + 2 ≡ len → Seen len (handed (suc k)) (expects len) idle
  raced k e =
      let s =
        second_takes (omega arith)
          (first_moves (warm_up k (omega arith)) (load_task (omega arith))) in
      let next : add32 (suc k) 1 ≡ len = omega arith in
      rw next at (first_moves s (lose_task (omega arith) (omega arith)))

  -- Two threads, with compare-exchanges that do not fail without cause, suffice to hand out an
  -- index past the end of any queue of at least two and fewer than 2^32 - 1 tasks.
  pub overrun : 2 ≤ len → (s : Pool) × Reach false 2 len s × (s.pc 0 ≡ claimed len)
  overrun two =
      let s = second_takes (omega arith) (raced (len - 2) (omega arith)) in
      let r = first_moves s (win (omega arith)) in (r.pool, r.reach, r.first)

-- A thread that moves on its own, the others resting.
pub data Alone (weak : Bool) (len : ℕ) : Shared → Pc → Shared → Pc → Type 0 where
  rest : {m : Shared} {p : Pc} → Alone weak len m p m p
  on :
      {m m' m'' : Shared} {p p' p'' : Pc}
      → Alone weak len m p m' p'
      → Move weak len m' p' m'' p''
      → Alone weak len m p m'' p''

module _ {weak : Bool} {len : ℕ} (small : len + 1 < 2 ^ 32) where
  Move-stuck :
      {m m' : Shared} {p p' : Pc}
      → Move weak len m p m' p'
      → m.counter < len
      → p ≡ expects (add32 m.counter 1)
      → (m' ≡ m) × (p' ≡ p)
  Move-stuck (load_empty h) room e = cc
  Move-stuck (load_task h) room e = cc
  Move-stuck (win h) room e = ground arith
  Move-stuck (lose_empty h k) room e = absurd (omega arith)
  Move-stuck (lose_task h k) room e = (refl, cc)
  Move-stuck (spurious_empty h k) room e = absurd (omega arith)
  Move-stuck (spurious_task h k) room e = (refl, cc)
  Move-stuck again room e = cc

  -- For a queue of fewer than 2^32 - 1 tasks: a thread that has lost a race while tasks are left,
  -- and so expects the counter's successor, never gets on by itself. After any number of its own
  -- steps it has no task and no `NULL`, and has changed nothing.
  pub lost_race_stuck :
      {m m' : Shared} {p p' : Pc}
      → Alone weak len m p m' p'
      → m.counter < len
      → p ≡ expects (add32 m.counter 1)
      → (m' ≡ m) × (p' ≡ expects (add32 m.counter 1))
  lost_race_stuck rest room e = (refl, e)
  lost_race_stuck (on r mv) room e =
      let ih = lost_race_stuck r room e in
      let st = Move-stuck mv (ground (arith, ih.0)) (ground (arith, ih.0, ih.1)) in
      (st.0 ∙ ih.0, st.1 ∙ ih.1)
