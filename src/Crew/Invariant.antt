-- ===== src/Crew/Invariant.antt =====
-- What every interleaving of the host and its workers keeps.
use mdb.Base.{true, ℕ, ◌≤◌, ◌<◌, ◌≡◌, refl, ◌∙◌, arith}
use mdb.Claim
use mdb.Claim.{update}
use mdb.Worker
use mdb.Worker.{Pc, loop_pop, loop_task, got}
use mdb.Worker.System.{System}
use mdb.Worker.Invariant.{Inv}
use mdb.Worker.Serving.{IsServing}
use mdb.Sched.{success, fail}
use mdb.Crew.{Crew, HostPc, ready, starting, sends, popping, waiting, reads, returned}
use mdb.Crew.Queued.{Queued, update-all, update-both}

-- A worker is in a pop only at `loop_pop`, and holds a task only there and at `loop_task`.
abbrev pub PopsAt : Pc → Claim.Pc → Type 0
PopsAt loop_pop p = Unit
PopsAt loop_task p = (c : ℕ) × (p ≡ Claim.Pc.claimed c)
PopsAt _ p = p ≡ Claim.Pc.idle

pub record Working (n : ℕ) (workers : ℕ → System) (pops : ℕ → Claim.Pc) : Type 0 where
  pub each : (i : ℕ) → i < n → Inv (workers i)
  pub serving : (i : ℕ) → i < n → IsServing (workers i)
  pub linked : (i : ℕ) → i < n → PopsAt (workers i).worker (pops i)

-- The first k workers have been found waiting, and nothing has been asked of them since.
abbrev pub Found : ℕ → (ℕ → System) → Type 0
Found k workers = (j : ℕ) → j < k → (workers j).host ≡ got Worker.st_waiting

abbrev pub HostAt : ℕ → ℕ → Crew → HostPc → Type 0
HostAt n len s popping = Unit
HostAt n len s (waiting i) =
    (s.pops n ≡ Claim.Pc.idle) × (len ≤ s.queue.counter) × Found i s.workers
HostAt n len s (reads i) = (s.pops n ≡ Claim.Pc.idle) × (len ≤ s.queue.counter) × Found i s.workers
HostAt n len s (returned success) =
    (s.pops n ≡ Claim.Pc.idle) × (len ≤ s.queue.counter) × Found n s.workers
HostAt n len s (returned fail) = ⊥
HostAt n len s _ = s.pops n ≡ Claim.Pc.idle

pub record CrewInv (n len : ℕ) (s : Crew) : Type 0 where
  pub queued : Queued n len s.queue s.pops s.ran
  pub working : Working n s.workers s.pops
  pub user_fun : s.user_fun ≡ true
  pub host_at : HostAt n len s s.host

-- A step of a worker leaves the host where it is, with what the host has found.
pub HostAt-mono :
    {n : ℕ} (len : ℕ) (s t : Crew) (h : HostPc)
    → s.queue.counter ≤ t.queue.counter
    → t.pops n ≡ s.pops n
    → ((j : ℕ) → (t.workers j).host ≡ (s.workers j).host)
    → HostAt n len s h
    → HostAt n len t h
HostAt-mono len s t popping c p w a = tt
HostAt-mono len s t (waiting i) c p w a = (p ∙ a.0, omega (arith, a.1, c), λ j lt. w j ∙ a.2 j lt)
HostAt-mono len s t (reads i) c p w a = (p ∙ a.0, omega (arith, a.1, c), λ j lt. w j ∙ a.2 j lt)
HostAt-mono len s t (returned success) c p w a =
    (p ∙ a.0, omega (arith, a.1, c), λ j lt. w j ∙ a.2 j lt)
HostAt-mono len s t (returned fail) c p w a = a
HostAt-mono len s t ready c p w a = p ∙ a
HostAt-mono len s t (starting i) c p w a = p ∙ a
HostAt-mono len s t (sends i) c p w a = p ∙ a

pub same_host :
    (workers : ℕ → System) (i : ℕ) (w : System)
    → w.host ≡ (workers i).host
    → (j : ℕ) → (update workers i w j).host ≡ (workers j).host
same_host workers i w e = update-all (λ j w. w.host ≡ (workers j).host) workers i w e (λ j. refl)

module _ {n : ℕ} {workers : ℕ → System} {pops : ℕ → Claim.Pc} (inv : Working n workers pops)
    (i : ℕ) where
  pub Working-worker :
      (w : System)
      → Inv w
      → IsServing w
      → PopsAt w.worker (pops i)
      → Working n (update workers i w) pops
  Working-worker w v up l = record {
    each = update-all (λ j w. j < n → Inv w) workers i w (λ _. v) inv.each;
    serving = update-all (λ j w. j < n → IsServing w) workers i w (λ _. up) inv.serving;
    linked = update-all (λ j w. j < n → PopsAt w.worker (pops j)) workers i w (λ _. l) inv.linked;
  }

  pub Working-both :
      (w : System) (p : Claim.Pc)
      → Inv w
      → IsServing w
      → PopsAt w.worker p
      → Working n (update workers i w) (update pops i p)
  Working-both w p v up l = record {
    each = update-all (λ j w. j < n → Inv w) workers i w (λ _. v) inv.each;
    serving = update-all (λ j w. j < n → IsServing w) workers i w (λ _. up) inv.serving;
    linked =
        update-both (λ j w p. j < n → PopsAt w.worker p) workers pops i w p (λ _. l) inv.linked;
  }

  pub Working-pops :
      (p : Claim.Pc) → (i < n → PopsAt (workers i).worker p) → Working n workers (update pops i p)
  Working-pops p l = record {
    each = inv.each;
    serving = inv.serving;
    linked = update-all (λ j p. j < n → PopsAt (workers j).worker p) pops i p l inv.linked;
  }
