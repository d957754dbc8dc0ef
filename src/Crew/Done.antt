-- ===== src/Crew/Done.antt =====
-- What `rsched_host_yield` has done when it returns.
use mdb.Base.{dec_lt, ◌⊎◌, inl, inr, ℕ, suc, ◌+◌, ◌^◌, ◌<◌, ◌≡◌, refl, ap, ◌∙◌, Bool, true, arith}
use mdb.Worker.Invariant.{parked}
use mdb.Claim.Invariant.{times, countdown, times-none, times-countdown}
use mdb.Sched.{Status, success, fail}
use mdb.Crew.{Crew, returned, Reach}
use mdb.Crew.Held.{holders-none}
use mdb.Crew.Moves.{here, found-parked}
use mdb.Crew.Kept.{Reach-CrewInv, all_idle}

-- No call fails: no worker is ever found down.
pub host_yield-success :
    {weak : Bool} {n len : ℕ} {s : Crew} (st : Status)
    → len + 1 < 2 ^ 32
    → Reach weak n len s
    → s.host ≡ returned st
    → st ≡ success
host_yield-success success small r e = refl
host_yield-success fail small r e = absurd (here (Reach-CrewInv small r) e)

module _ {weak : Bool} {n len : ℕ} {s : Crew} (small : len + 1 < 2 ^ 32) (r : Reach weak n len s)
    (back : s.host ≡ returned success) where
  -- What has been taken has been run.
  pub ran-times : (j : ℕ) → times j s.ran ≡ times j (countdown s.queue.counter)
  ran-times j =
      let inv = Reach-CrewInv small r in
      let a = here inv back in
      omega (
        arith,
        inv.queued.counted j,
        holders-none j (suc n) s.pops (all_idle inv.working a.2 a.0),
        ap (times j) inv.queued.exact,
      )

  -- For any number of workers and a queue of fewer than 2^32 - 1 tasks, with a function set and no
  -- worker told to leave, however the host and the workers interleave, and in every round from one
  -- requeue to the next: when `rsched_host_yield` has returned success, each task of the queue has
  -- been run exactly once, no index above its length has been run, and each worker is at its wait
  -- for a signal.
  pub host_yield_done :
      ((j : ℕ) → j < len → times j s.ran ≡ 1)
      × ((j : ℕ) → len < j → times j s.ran ≡ 0)
      × ((i : ℕ) → i < n → parked (s.workers i).worker ≡ true)
  host_yield_done =
      let inv = Reach-CrewInv small r in
      let a = here inv back in
      (
        λ j lt. ran-times j ∙ times-countdown j s.queue.counter (omega (arith, lt, a.1)),
        λ j lt. ran-times j ∙ times-none j s.queue.counter (omega (arith, lt, inv.queued.bounded)),
        λ i lt. (found-parked inv.working a.2 i lt).0,
      )

  -- The counter has stopped at the end of the queue, or the index behind the last has been run too.
  pub stopped : (s.queue.counter ≡ len) ⊎ (times len s.ran ≡ 1)
  stopped =
      let a = here (Reach-CrewInv small r) back in
      elim (dec_lt len s.queue.counter) [
        | yes over ↦ inr (ran-times len ∙ times-countdown len s.queue.counter over)
        | no at ↦ inl (omega (arith, at, a.1))
      ]
