-- ===== src/Crew/Queued.antt =====
-- The queue's side of the crew: what is taken is either run or held by a thread.
use mdb.Base.{
  ℕ, suc, ◌+◌, ◌^◌, ◌≤◌, ◌<◌, ◌≡◌, ◌≢◌, refl, ap, subst, sym, Bool, true, List, [], ◌∷◌, arith,
  ◌==◌, one_if, ℕ_discrete,
}
use mathlib.Core.Logic.{if_pos, if_neg}
use mdb.Claim.{
  Shared, Pc, idle, claimed, empty, Move, load_empty, load_task, win, lose_empty, lose_task,
  spurious_empty, spurious_task, again, update,
}
use mdb.Claim.Invariant.{countdown, times, IsFresh, IsFresh-mono, Move-keeps}
use mdb.Crew.{in_pop}
use mdb.Crew.Held.{held, holders, holders-update, holders-none}

module _ {A : Type 0} (f : ℕ → A) (i : ℕ) (a : A) {j : ℕ} where
  pub update-here : i ≡ j → update f i a j ≡ a
  update-here e = if_pos (ℕ_discrete i j) e a (f j)

  pub update-there : i ≢ j → update f i a j ≡ f j
  update-there ne = if_neg (ℕ_discrete i j) ne a (f j)

module _ {A B : Type 0} (P : ℕ → A → B → Type 0) (f : ℕ → A) (g : ℕ → B) (i : ℕ) (a : A)
    (b : B) where
  -- What holds at every place still does when it holds of what is put at one.
  pub update-both :
      P i a b → ((j : ℕ) → P j (f j) (g j)) → (j : ℕ) → P j (update f i a j) (update g i b j)
  update-both here all j = elim (ℕ_discrete i j) [
    | yes e ↦ rw (update-here f i a e, update-here g i b e) (subst (λ k. P k a b) e here)
    | no ne ↦ rw (update-there f i a ne, update-there g i b ne) (all j)
  ]

module _ {A : Type 0} (P : ℕ → A → Type 0) (f : ℕ → A) (i : ℕ) (a : A) where
  pub update-all : P i a → ((j : ℕ) → P j (f j)) → (j : ℕ) → P j (update f i a j)
  update-all here all j = elim (ℕ_discrete i j) [
    | yes e ↦ rw (update-here f i a e) (subst (λ k. P k a) e here)
    | no ne ↦ rw (update-there f i a ne) (all j)
  ]

-- Of the n workers and the host.
pub record Queued (n len : ℕ) (q : Shared) (pops : ℕ → Pc) (ran : List ℕ) : Type 0 where
  pub bounded : q.counter ≤ len + 1
  pub exact : q.taken ≡ countdown q.counter
  pub fresh : (i : ℕ) → i < suc n → IsFresh len q (pops i)
  pub counted : (j : ℕ) → times j q.taken ≡ times j ran + holders j (suc n) pops

Move-counts :
    {weak : Bool} {len : ℕ} {m m' : Shared} {p p' : Pc} (j : ℕ)
    → Move weak len m p m' p'
    → in_pop p ≡ true
    → (times j m'.taken ≡ times j m.taken + held j p') × (held j p ≡ 0)
Move-counts j (load_empty h) e = ground arith
Move-counts j (load_task h) e = ground arith
Move-counts j (win h) e = ground arith
Move-counts j (lose_empty h k) e = ground arith
Move-counts j (lose_task h k) e = ground arith
Move-counts j (spurious_empty h k) e = ground arith
Move-counts j (spurious_task h k) e = ground arith
Move-counts j again e = ground arith

module _ {n len : ℕ} {q : Shared} {pops : ℕ → Pc} {ran : List ℕ} (inv : Queued n len q pops ran)
    (i : ℕ) (thread : i < suc n) where
  pub Queued-pop :
      {weak : Bool} {m : Shared} {p : Pc}
      → len + 1 < 2 ^ 32
      → in_pop (pops i) ≡ true
      → Move weak len q (pops i) m p
      → Queued n len m (update pops i p) ran × (q.counter ≤ m.counter)
  Queued-pop {m = m} {p = p} small inside mv =
      let k = Move-keeps small mv (inv.fresh i thread) inv.bounded inv.exact in
      (
        record {
          bounded = k.1;
          exact = k.2;
          fresh =
              update-all (λ j p. j < suc n → IsFresh len m p) pops i p (λ _. k.3)
                (λ j lt. IsFresh-mono len q m (pops j) k.0 (inv.fresh j lt));
          counted = λ j. omega (
            arith,
            Move-counts j mv inside,
            inv.counted j,
            holders-update j pops i p (suc n) thread,
          );
        },
        k.0,
      )

  idle-IsFresh : (j : ℕ) → j < suc n → IsFresh len q (update pops i idle j)
  idle-IsFresh = update-all (λ j p. j < suc n → IsFresh len q p) pops i idle (λ _. tt) inv.fresh

  pub Queued-run : {c : ℕ} → pops i ≡ claimed c → Queued n len q (update pops i idle) (c ∷ ran)
  Queued-run {c} e = record {
    bounded = inv.bounded;
    exact = inv.exact;
    fresh = idle-IsFresh;
    counted = λ j.
        let was : held j (pops i) ≡ one_if (c == j) = ap (held j) e in
        omega (arith, was, inv.counted j, holders-update j pops i idle (suc n) thread);
  }

  pub Queued-empty : pops i ≡ empty → Queued n len q (update pops i idle) ran
  Queued-empty e = record {
    bounded = inv.bounded;
    exact = inv.exact;
    fresh = idle-IsFresh;
    counted = λ j.
        let was : held j (pops i) ≡ 0 = ap (held j) e in
        omega (arith, was, inv.counted j, holders-update j pops i idle (suc n) thread);
  }

pub Queued-start :
    (n len : ℕ) (pops : ℕ → Pc)
    → ((i : ℕ) → i < suc n → pops i ≡ idle)
    → Queued n len (record { counter = 0; taken = [] }) pops []
Queued-start n len pops h = record {
  bounded = omega arith;
  exact = refl;
  fresh = λ i lt. subst (IsFresh len (record { counter = 0; taken = [] })) (sym (h i lt)) tt;
  counted = λ j. omega (arith, holders-none j (suc n) pops h);
}
