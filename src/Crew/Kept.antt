-- ===== src/Crew/Kept.antt =====
-- Every step of the host or a worker keeps the invariant of the crew.
use mdb.Base.{
  ℕ, suc, ◌+◌, ◌^◌, ◌<◌, ◌≡◌, refl, sym, subst, Bool, true, false, List, ◌∷◌, arith, dec_lt,
}
use mdb.Claim
use mdb.Claim.{update}
use mdb.Claim.Invariant.{IsFresh}
use mdb.Worker
use mdb.Worker.{Pc, At, sending, reading, got, worker_step, host_step}
use mdb.Worker.System.{System, worker_moves, host_moves}
use mdb.Worker.Invariant.{Step-Inv, Reach-Inv}
use mdb.Worker.Serving.{host-IsServing, Serving-up}
use mdb.Sched.{Status, success, fail}
use mdb.Crew.{
  Crew, HostPc, starting, popping, waiting, returned, Step, worker_pops, worker_takes, worker_empty,
  worker_runs, worker_moves, host_enters, host_refuses, host_sends, send_moves, host_sent, all_sent,
  host_pops, host_runs, host_empty, host_asks, read_moves, is_waiting, is_down, is_other,
  all_waiting, requeue, Reach, start, later,
}
use mdb.Crew.Queued.{Queued, Queued-pop, Queued-run, Queued-empty, Queued-start, update-here}
use mdb.Crew.Invariant.{PopsAt, Working, Found, HostAt, CrewInv, Working-pops}
use mdb.Crew.Moves.{
  stepped, moved-PopsAt, idle-PopsAt, found-parked, here, found_still, pops-CrewInv, moves-CrewInv,
  leaves-CrewInv, calls-CrewInv,
}

-- The i-th worker is found, and those before it have been.
Found-suc :
    (k : ℕ) (workers : ℕ → System)
    → Found k workers
    → (workers k).host ≡ got Worker.st_waiting
    → Found (k + 1) workers
Found-suc k ws found last j lt = elim (dec_lt j k) [
  | yes below ↦ found j below
  | no at ↦ subst (λ j. (ws j).host ≡ got Worker.st_waiting) (omega (arith, lt, at)) last
]

module _ {n len : ℕ} {s : Crew} (inv : CrewInv n len s) where
  -- The host moves on by itself.
  goes : (h : HostPc) → HostAt n len s h → CrewInv n len (record s { host = h })
  goes h at = record {
    queued = inv.queued;
    working = inv.working;
    user_fun = inv.user_fun;
    host_at = at;
  }

  -- What is known of the host where it stays.
  stays : (t : Crew) {h : HostPc} → s.host ≡ h → HostAt n len t h → HostAt n len t s.host
  stays t e at = subst (HostAt n len t) (sym e) at

  -- The host leaves its pop, or goes on in it.
  host-CrewInv :
      {q : Claim.Shared} (p : Claim.Pc) {ran : List ℕ} (h : HostPc)
      → Queued n len q (update s.pops n p) ran
      → HostAt n len (record s { queue = q; pops = update s.pops n p; ran = ran }) h
      → CrewInv n len (record s { queue = q; pops = update s.pops n p; ran = ran; host = h })
  host-CrewInv p h q at = record {
    queued = q;
    working = Working-pops inv.working n p (λ lt. absurd (omega (arith, lt)));
    user_fun = inv.user_fun;
    host_at = at;
  }

-- The host comes back with a success only.
pub came_back :
    {n len : ℕ} {s : Crew}
    → CrewInv n len s
    → (st : Status) → s.host ≡ returned st
    → HostAt n len s (returned success)
came_back inv success e = here inv e
came_back inv fail e = absurd (here inv e)

-- Once all workers have been found waiting, no thread is in a pop.
pub all_idle :
    {n : ℕ} {workers : ℕ → System} {pops : ℕ → Claim.Pc}
    → Working n workers pops
    → Found n workers
    → pops n ≡ Claim.Pc.idle
    → (i : ℕ) → i < suc n
    → pops i ≡ Claim.Pc.idle
all_idle {n} {pops = ps} w found host i lt = elim (dec_lt i n) [
  | yes below ↦ (found-parked w found i below).1
  | no at ↦ subst (λ i. ps i ≡ Claim.Pc.idle) (omega (arith, lt, at)) host
]

Step-CrewInv :
    {weak : Bool} {n len : ℕ} {s t : Crew}
    → len + 1 < 2 ^ 32
    → Step weak n len s t
    → CrewInv n len s
    → CrewInv n len t
unfolding worker_step
Step-CrewInv small (worker_pops i lt at inside mv) inv = pops-CrewInv inv i small lt at inside mv
Step-CrewInv {s} small (worker_takes i {c} lt at cl e) inv =
    moves-CrewInv inv i true lt e
      (subst (λ p. PopsAt p (s.pops i)) (stepped true (s.workers i).mem e at) (c, cl))
Step-CrewInv {s} small (worker_empty i lt at em e) inv =
    leaves-CrewInv inv i lt e
      (subst (λ p. PopsAt p Claim.Pc.idle) (stepped false (s.workers i).mem e at) refl)
      (Queued-empty inv.queued i (omega (arith, lt)) em)
Step-CrewInv {s} small (worker_runs i lt at cl e) inv =
    leaves-CrewInv inv i lt e
      (subst (λ p. PopsAt p Claim.Pc.idle) (stepped false (s.workers i).mem e at) refl)
      (Queued-run inv.queued i (omega (arith, lt)) cl)
Step-CrewInv {s} small (worker_moves i lt a b e) inv =
    let w = s.workers i in
    moves-CrewInv inv i false lt e (
      subst (λ r. PopsAt r.1 (s.pops i)) e
        (moved-PopsAt w.mem w.worker (s.pops i) a b (inv.working.linked i lt)))
Step-CrewInv small (host_enters u e) inv = goes inv (starting 0) (here inv e)
Step-CrewInv small (host_refuses u e) inv = absurd (ground (arith, u, inv.user_fun))
Step-CrewInv {s} small (host_sends i lt e) inv =
    let v = inv.working.each i lt in
    calls-CrewInv inv i (record (s.workers i) { host = sending Worker.sig_none Worker.sig_start })
      lt
      (record {
        state_at = v.state_at;
        signal_at = v.signal_at;
        host_at = (omega arith, omega arith);
      })
      (let u = inv.working.serving i lt in
        record { user_fun = u.user_fun; signal = u.signal; at_work = u.at_work; sends = refl })
      refl (here inv e)
Step-CrewInv {s} small (send_moves i fails {m} {h} lt e k) inv =
    let w : System = record (s.workers i) { mem = m; host = h } in
    calls-CrewInv inv i w lt (Step-Inv (host_moves fails k) (inv.working.each i lt))
      (host-IsServing fails (inv.working.serving i lt) k) refl
      (stays inv (record s { workers = update s.workers i w }) e (here inv e))
Step-CrewInv small (host_sent i lt e k) inv = goes inv (starting (i + 1)) (here inv e)
Step-CrewInv small (all_sent e) inv = goes inv popping tt
Step-CrewInv {n = n} {len = len} {s = s} small (host_pops {m} {p} e inside mv) inv =
    host-CrewInv inv p s.host (Queued-pop inv.queued n (omega arith) small inside mv).0
      (stays inv (record s { queue = m; pops = update s.pops n p }) e tt)
Step-CrewInv {n = n} {len = len} {s = s} small (host_runs {c} e cl) inv =
    host-CrewInv inv Claim.Pc.idle s.host (Queued-run inv.queued n (omega arith) cl)
      (stays inv (record s { pops = update s.pops n Claim.Pc.idle; ran = c ∷ s.ran }) e tt)
Step-CrewInv {n = n} {len = len} {s = s} small (host_empty e em) inv =
    host-CrewInv inv Claim.Pc.idle (waiting 0) (Queued-empty inv.queued n (omega arith) em) (
      update-here s.pops n Claim.Pc.idle refl,
      subst (IsFresh len s.queue) em (inv.queued.fresh n (omega arith)),
      λ j lt. absurd (omega (arith, lt)),
    )
Step-CrewInv {s} small (host_asks i lt e) inv =
    let v = inv.working.each i lt in
    let w : System = record (s.workers i) { host = reading } in
    let a = here inv e in
    calls-CrewInv inv i w lt
      (record { state_at = v.state_at; signal_at = v.signal_at; host_at = tt })
      (let u = inv.working.serving i lt in
        record { user_fun = u.user_fun; signal = u.signal; at_work = u.at_work; sends = tt })
      refl (a.0, a.1, found_still inv i i w (omega arith) a.2)
Step-CrewInv {s} small (read_moves i fails {m} {h} lt e k st) inv =
    let w : System = record (s.workers i) { mem = m; host = h } in
    let a = here inv e in
    calls-CrewInv inv i w lt (Step-Inv (host_moves fails st) (inv.working.each i lt))
      (host-IsServing fails (inv.working.serving i lt) st) refl
      (stays inv (record s { workers = update s.workers i w }) e
        (a.0, a.1, found_still inv i i w (omega arith) a.2))
Step-CrewInv {s} small (is_waiting i lt e k) inv =
    let a = here inv e in goes inv (waiting (i + 1)) (a.0, a.1, Found-suc i s.workers a.2 k)
Step-CrewInv small (is_down i lt e k) inv =
    absurd (Serving-up (inv.working.each i lt) (inv.working.serving i lt) k)
Step-CrewInv small (is_other i lt e k a b) inv = goes inv (waiting i) (here inv e)
Step-CrewInv small (all_waiting e) inv = goes inv (returned success) (here inv e)
Step-CrewInv {n = n} {len = len} {s = s} small (requeue {st} e) inv =
    let a = came_back inv st e in
    record {
      queued = Queued-start n len s.pops (all_idle inv.working a.2 a.0);
      working = inv.working;
      user_fun = inv.user_fun;
      host_at = a.0;
    }

pub Reach-CrewInv :
    {weak : Bool} {n len : ℕ} {s : Crew} → len + 1 < 2 ^ 32 → Reach weak n len s → CrewInv n len s
Reach-CrewInv {n = n} {len = len} small (start workers reached calm serving) = record {
  queued = Queued-start n len (λ _. Claim.Pc.idle) (λ i lt. refl);
  working = record {
    each = λ i lt. Reach-Inv (reached i lt);
    serving = serving;
    linked = λ i lt. idle-PopsAt (workers i).worker (calm i lt);
  };
  user_fun = refl;
  host_at = refl;
}
Reach-CrewInv small (later r st) = Step-CrewInv small st (Reach-CrewInv small r)
