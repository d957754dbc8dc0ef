-- ===== src/Worker/Serving.antt =====
-- Workers with a function set, to which nothing but `RS_SIG_START` has been sent, as they are from
-- `rsched_set_user_context` to `rsched_shutdown`.
use mdb.Base.{ℕ, ◌≡◌, ◌⊎◌, refl, ◌∙◌, subst, Bool, true, arith}
use mdb.Worker.{
  Shared, Pc, yield_store, handle, exit_store, exit_unlock, gone, HostPc, idle, sending, reading,
  loading, got, handle_sig, worker_step, host_step, sig_none, sig_start, sig_locked, st_down,
}
use mdb.Worker.System.{System}
use mdb.Worker.Invariant.{Inv, SignalAt, HostAgrees}

abbrev pub IsKnown : ℕ → Type 0
IsKnown sig = (sig ≡ sig_none) ⊎ (sig ≡ sig_start) ⊎ (sig ≡ sig_locked)

-- The worker is not on its way out.
abbrev pub IsAtWork : Pc → Type 0
IsAtWork (handle sig) = sig ≡ sig_start
IsAtWork exit_store = ⊥
IsAtWork exit_unlock = ⊥
IsAtWork gone = ⊥
IsAtWork _ = Unit

abbrev pub SendsStart : HostPc → Type 0
SendsStart (sending esig sig) = sig ≡ sig_start
SendsStart _ = Unit

pub record IsServing (s : System) : Type 0 where
  pub user_fun : s.mem.user_fun ≡ true
  pub signal : IsKnown s.mem.signal
  pub at_work : IsAtWork s.worker
  pub sends : SendsStart s.host

worker-user_fun :
    (task : Bool) (m : Shared) (p : Pc) → (worker_step task m p).0.user_fun ≡ m.user_fun
unfolding worker_step handle_sig
worker-user_fun task m yield_store = refl
worker-user_fun task m p = ground arith

worker-IsKnown :
    (task : Bool) (m : Shared) (p : Pc) → IsKnown m.signal → IsKnown (worker_step task m p).0.signal
unfolding worker_step handle_sig
worker-IsKnown task m yield_store k = k
worker-IsKnown task m p k = ground arith

worker-IsAtWork :
    (task : Bool) (m : Shared) (p : Pc)
    → m.user_fun ≡ true
    → SignalAt m.signal p
    → IsKnown m.signal
    → IsAtWork p
    → IsAtWork (worker_step task m p).1
unfolding worker_step handle_sig
worker-IsAtWork task m yield_store u s k a = tt
worker-IsAtWork task m p u s k a = ground (arith, s.0, s.1)

pub worker-IsServing :
    {s : System} (task : Bool) {m : Shared} {p : Pc}
    → Inv s
    → IsServing s
    → worker_step task s.mem s.worker ≡ (m, p)
    → IsServing (record s { mem = m; worker = p })
worker-IsServing {s} task inv v e = record {
  user_fun = rw e at (worker-user_fun task s.mem s.worker ∙ v.user_fun);
  signal = rw e at (worker-IsKnown task s.mem s.worker v.signal);
  at_work =
      rw e at (worker-IsAtWork task s.mem s.worker v.user_fun inv.signal_at v.signal v.at_work);
  sends = v.sends;
}

host_keeps :
    (fails : Bool) (m : Shared) (h : HostPc)
    → IsKnown m.signal
    → SendsStart h
    → let (m', h') = host_step fails m h in
      (m'.user_fun ≡ m.user_fun) × IsKnown m'.signal × SendsStart h'
unfolding host_step
host_keeps fails m idle k a = (refl, k, tt)
host_keeps fails m (sending esig sig) k a = ground arith
host_keeps fails m reading k a = ground arith
host_keeps fails m loading k a = (refl, k, tt)
host_keeps fails m (got st) k a = (refl, k, tt)

pub host-IsServing :
    {s : System} (fails : Bool) {m : Shared} {h : HostPc}
    → IsServing s
    → host_step fails s.mem s.host ≡ (m, h)
    → IsServing (record s { mem = m; host = h })
host-IsServing {s} fails {m} {h} v e =
    let k : (m.user_fun ≡ s.mem.user_fun) × IsKnown m.signal × SendsStart h =
      rw e at (host_keeps fails s.mem s.host v.signal v.sends) in
    record { user_fun = k.0 ∙ v.user_fun; signal = k.1; at_work = v.at_work; sends = k.2 }

-- None of them is ever found down.
pub Serving-up : {s : System} → Inv s → IsServing s → s.host ≡ got st_down → ⊥
Serving-up {s} inv v e =
    let a : HostAgrees s.mem.signal s.worker (got st_down) = rw e at inv.host_at in
    subst IsAtWork (a.2 refl) v.at_work
