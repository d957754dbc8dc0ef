-- ===== src/Sched/Wait.antt =====
-- The host waits for its workers.
use mdb.Base.{
  ℕ, zero, suc, ◌+◌, ◌≤◌, ◌<◌, ◌≡◌, ◌≢◌, refl, ap, sym, subst, false, ◌∙◌, List, ◌∷◌, ◌==◌, arith,
  done, if◌then◌else◌,
}
use mdb.Worker.{st_waiting, st_down}
use mdb.Sched.{success, fail, wait_worker, wait_workers}

-- The first state that ends the wait is `state`.
pub data Settles (state : ℕ) : List ℕ → Type 0 where
  now : {rest : List ℕ} → Settles state (state ∷ rest)
  then_on :
      {st : ℕ} {rest : List ℕ}
      → st ≢ st_waiting
      → st ≢ st_down
      → Settles state rest
      → Settles state (st ∷ rest)

wait_worker-waiting :
    {states : List ℕ} → Settles st_waiting states → wait_worker states ≡ done success
unfolding wait_worker
wait_worker-waiting now = refl
wait_worker-waiting (then_on p q more) = ground (arith, wait_worker-waiting more)

wait_worker-down : {states : List ℕ} → Settles st_down states → wait_worker states ≡ done fail
unfolding wait_worker
wait_worker-down now = refl
wait_worker-down (then_on p q more) = ground (arith, wait_worker-down more)

-- Where all workers up to the k-th are found waiting: if these are all, the wait is a success, and
-- if the next is found down, it fails.
pub wait_workers_lem :
    (rounds i k : ℕ) (states : ℕ → List ℕ)
    → k ≤ rounds
    → ((j : ℕ) → j < k → Settles st_waiting (states (i + j)))
    → (k < rounds → Settles st_down (states (i + k)))
    → wait_workers rounds i states ≡ done (if k == rounds then success else fail)
unfolding wait_workers
wait_workers_lem zero i k states h waiting down = ground arith
wait_workers_lem (suc rounds) i zero states h waiting down =
    let here : i + 0 ≡ i = omega arith in
    let first : wait_worker (states i) ≡ done fail =
      ap (λ i. wait_worker (states i)) (sym here) ∙ wait_worker-down (down (omega arith)) in
    let not_all : (0 == suc rounds) ≡ false = ground arith in rw (first, not_all)
wait_workers_lem (suc rounds) i (suc k) states h waiting down =
    let here : i + 0 ≡ i = omega arith in
    let first : wait_worker (states i) ≡ done success =
      ap (λ i. wait_worker (states i)) (sym here) ∙ wait_worker-waiting (waiting 0 (omega arith)) in
    let both : (suc k == suc rounds) ≡ (k == rounds) = ground arith in
    let shift : (j : ℕ) → i + suc j ≡ i + 1 + j = λ j. omega arith in
    rw (first, both)
      (wait_workers_lem rounds (i + 1) k states (omega arith)
        (λ j l.
          subst (λ n. Settles st_waiting (states n)) (shift j) (waiting (suc j) (omega arith)))
        (λ l. subst (λ n. Settles st_down (states n)) (shift k) (down (omega arith))))

pub wait_workers_from_0 :
    (n k : ℕ) (states : ℕ → List ℕ)
    → k ≤ n
    → ((j : ℕ) → j < k → Settles st_waiting (states j))
    → (k < n → Settles st_down (states k))
    → wait_workers n 0 states ≡ done (if k == n then success else fail)
wait_workers_from_0 n k states h waiting down =
    let zero_on : (j : ℕ) → j ≡ 0 + j = λ j. omega arith in
    wait_workers_lem n 0 k states h
      (λ j l. subst (λ n. Settles st_waiting (states n)) (zero_on j) (waiting j l))
      (λ l. subst (λ n. Settles st_down (states n)) (zero_on k) (down l))
