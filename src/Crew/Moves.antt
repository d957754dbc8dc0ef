-- ===== src/Crew/Moves.antt =====
-- The kinds of steps of the crew, and that each keeps the invariant.
use mdb.Base.{
  ℕ, ◌+◌, ◌^◌, ◌≤◌, ◌<◌, ◌≡◌, ◌≢◌, refl, ap, sym, ◌∙◌, subst, Bool, true, false, List, arith,
}
use mdb.Claim
use mdb.Claim.{update}
use mdb.Worker
use mdb.Worker.{
  At, Pc, loop_pop, loop_task, loop_empty, loop_exchange, yield_store, sending, reading, got,
  worker_step, host_step, handle_sig,
}
use mdb.Worker.System.{System, worker_moves}
use mdb.Worker.Invariant.{Inv, Step-Inv, Inv-parked, parked}
use mdb.Worker.Serving.{IsServing, worker-IsServing}
use mdb.Crew.{Crew, in_pop, HostPc}
use mdb.Crew.Queued.{Queued, Queued-pop, update-there}
use mdb.Crew.Invariant.{
  PopsAt, Working, Found, HostAt, CrewInv, HostAt-mono, same_host, Working-worker, Working-both,
  Working-pops,
}

-- Where a worker gets to from a known place.
pub stepped :
    (task : Bool) (m : Worker.Shared) {p q : Pc} {a : At}
    → worker_step task m p ≡ a
    → p ≡ q
    → (worker_step task m q).1 ≡ a.1
stepped task m e at = ap (λ p. (worker_step task m p).1) (sym at) ∙ ap (λ a. a.1) e

pub moved-PopsAt :
    (m : Worker.Shared) (p : Pc) (pop : Claim.Pc)
    → p ≢ loop_pop
    → p ≢ loop_task
    → PopsAt p pop
    → PopsAt (worker_step false m p).1 pop
unfolding worker_step handle_sig
moved-PopsAt m yield_store pop a b l = l
moved-PopsAt m loop_pop pop a b l = absurd (a refl)
moved-PopsAt m loop_task pop a b l = absurd (b refl)
moved-PopsAt m p pop a b l = ground arith

parked-PopsAt : (p : Pc) (pop : Claim.Pc) → parked p ≡ true → PopsAt p pop → pop ≡ Claim.Pc.idle
parked-PopsAt yield_store pop e l = l
parked-PopsAt p pop e l = ground arith

pub idle-PopsAt : (p : Pc) → parked p ≡ true → PopsAt p Claim.Pc.idle
idle-PopsAt yield_store e = refl
idle-PopsAt p e = ground arith

-- Found waiting by the host, a worker is parked, and in no pop.
pub found-parked :
    {n : ℕ} {workers : ℕ → System} {pops : ℕ → Claim.Pc}
    → Working n workers pops
    → Found n workers
    → (i : ℕ) → i < n
    → (parked (workers i).worker ≡ true) × (pops i ≡ Claim.Pc.idle)
found-parked {workers = ws} {pops = ps} w found i lt =
    let p = (Inv-parked (w.each i lt) (found i lt)).0 in
    (p, parked-PopsAt (ws i).worker (ps i) p (w.linked i lt))

module _ {n len : ℕ} {s : Crew} (inv : CrewInv n len s) where
  -- The host's part after a step of a worker that may have put another place in its pop.
  worker_host :
      (t : Crew)
      → s.queue.counter ≤ t.queue.counter
      → t.pops n ≡ s.pops n
      → ((j : ℕ) → (t.workers j).host ≡ (s.workers j).host)
      → HostAt n len t s.host
  worker_host t c p w = HostAt-mono len s t s.host c p w inv.host_at

  -- What is known of the host at a place where it is.
  pub here : {h : HostPc} → s.host ≡ h → HostAt n len s h
  here e = subst (HostAt n len s) e inv.host_at

  others : (i : ℕ) (p : Claim.Pc) → i < n → update s.pops i p n ≡ s.pops n
  others i p lt = update-there s.pops i p (omega arith)

  pub found_still :
      (i k : ℕ) (w : System) → k ≤ i → Found k s.workers → Found k (update s.workers i w)
  found_still i k w le found j lt =
      ap (λ w. w.host) (update-there s.workers i w (omega arith)) ∙ found j lt

  pub pops-CrewInv :
      {weak : Bool} (i : ℕ) {m : Claim.Shared} {p : Claim.Pc}
      → len + 1 < 2 ^ 32
      → i < n
      → (s.workers i).worker ≡ loop_pop
      → in_pop (s.pops i) ≡ true
      → Claim.Move weak len s.queue (s.pops i) m p
      → CrewInv n len (record s { queue = m; pops = update s.pops i p })
  pops-CrewInv i {m} {p} small lt at inside mv =
      let q = Queued-pop inv.queued i (omega arith) small inside mv in
      record {
        queued = q.0;
        working = Working-pops inv.working i p (λ _. subst (λ w. PopsAt w p) (sym at) tt);
        user_fun = inv.user_fun;
        host_at =
            worker_host (record s { queue = m; pops = update s.pops i p }) q.1 (others i p lt)
              (λ j. refl);
      }

  -- A worker moves and holds what it held.
  pub moves-CrewInv :
      (i : ℕ) (task : Bool) {m : Worker.Shared} {p : Pc}
      → i < n
      → worker_step task (s.workers i).mem (s.workers i).worker ≡ (m, p)
      → PopsAt p (s.pops i)
      → CrewInv n len
          (record s { workers = update s.workers i (record (s.workers i) { mem = m; worker = p }) })
  moves-CrewInv i task {m} {p} lt e l =
      let w : System = record (s.workers i) { mem = m; worker = p } in
      record {
        queued = inv.queued;
        working =
            Working-worker inv.working i w (Step-Inv (worker_moves task e) (inv.working.each i lt))
              (worker-IsServing task (inv.working.each i lt) (inv.working.serving i lt) e) l;
        user_fun = inv.user_fun;
        host_at =
            worker_host (record s { workers = update s.workers i w }) (omega arith) refl
              (same_host s.workers i w refl);
      }

  -- A worker moves and holds nothing any more.
  pub leaves-CrewInv :
      (i : ℕ) {m : Worker.Shared} {p : Pc} {ran : List ℕ}
      → i < n
      → worker_step false (s.workers i).mem (s.workers i).worker ≡ (m, p)
      → PopsAt p Claim.Pc.idle
      → Queued n len s.queue (update s.pops i Claim.Pc.idle) ran
      → CrewInv n len (record s {
        workers = update s.workers i (record (s.workers i) { mem = m; worker = p });
        pops = update s.pops i Claim.Pc.idle;
        ran = ran;
      })
  leaves-CrewInv i {m} {p} {ran} lt e l q =
      let w : System = record (s.workers i) { mem = m; worker = p } in
      let t : Crew = record s {
        workers = update s.workers i w;
        pops = update s.pops i Claim.Pc.idle;
        ran = ran;
      } in
      record {
        queued = q;
        working =
            Working-both inv.working i w Claim.Pc.idle
              (Step-Inv (worker_moves false e) (inv.working.each i lt))
              (worker-IsServing false (inv.working.each i lt) (inv.working.serving i lt) e) l;
        user_fun = inv.user_fun;
        host_at =
            worker_host t (omega arith) (others i Claim.Pc.idle lt) (same_host s.workers i w refl);
      }

  -- The host is in a call with a worker.
  pub calls-CrewInv :
      (i : ℕ) {h : HostPc} (w : System)
      → i < n
      → Inv w
      → IsServing w
      → w.worker ≡ (s.workers i).worker
      → HostAt n len (record s { workers = update s.workers i w }) h
      → CrewInv n len (record s { workers = update s.workers i w; host = h })
  calls-CrewInv i w lt v up same at = record {
    queued = inv.queued;
    working =
        Working-worker inv.working i w v up
          (subst (λ p. PopsAt p (s.pops i)) (sym same) (inv.working.linked i lt));
    user_fun = inv.user_fun;
    host_at = at;
  }
