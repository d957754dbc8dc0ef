-- ===== src/Render/Update.antt =====
-- `render_update` of app/render.c, with the host and its workers as sched/rsched.c runs them.
use mdb.Base.{
  ℕ, ◌^◌, ◌≤◌, ◌<◌, ◌≡◌, refl, Option, none, some, List, ◌==◌, if◌then◌else◌, Bool, true, false, ap,
  Outcome, done, ◌>>=◌,
}
use mdb.Queue.{Task}
use mdb.Surface.{Surface, set_buffer}
use mdb.Worker.{st_waiting, st_down}
use mdb.Sched.{Status, success, fail, Sched, host_yield}
use mdb.Sched.Wait.{Settles}
use mdb.Sched.Yield.{each, host_yield_lem}

module _ {F : Type 0} where
  -- On the surface that the scheduler's function draws on; `none` is an `exit`. The requeue is of the
  -- queue, which stands here as the tasks that it hands out.
  unfoldable pub render_update :
      Sched (Surface F)
      → List Task
      → (ℕ → List ℕ)
      → List F
      → Surface F
      → Outcome (Option (Surface F))
  render_update sched tasks states cells s =
      host_yield sched tasks states (set_buffer s cells) >>= λ y. elim y.status [
        | fail ↦ done none
        | success ↦ done (some y.state)
      ]

  replies :
      (st : Status) (s s' : Surface F) (b : Bool)
      → st ≡ (if b then success else fail)
      → s ≡ s'
      → elim st [ fail ↦ done none | success ↦ done (some s) ] ≡ done (if b then some s' else none)
  replies st s s' true e same = rw e (ap (λ s. done (some s)) same)
  replies st s s' false e same = rw e refl

  -- Where a function is set and draws the tasks on the surface with the mapped pixels, and the workers
  -- are found waiting up to the k-th, which is found down if there is one: `render_update` leaves the
  -- surface so drawn just if all are waiting, and exits otherwise.
  render_update_lem :
      (sched : Sched (Surface F)) (tasks : List Task) (states : ℕ → List ℕ) (cells : List F)
      (s : Surface F) {s' : Surface F} {f : Task → Surface F → Outcome (Surface F)} (k : ℕ)
      → sched.user.user_fun ≡ some f
      → sched.task_count < 2 ^ 64
      → each f tasks (set_buffer s cells) ≡ done s'
      → k ≤ sched.n_workers
      → ((i : ℕ) → i < k → Settles st_waiting (states i))
      → (k < sched.n_workers → Settles st_down (states k))
      → render_update sched tasks states cells s
        ≡ done (if k == sched.n_workers then some s' else none)
  unfolding render_update
  render_update_lem sched tasks states cells s {s'} k set small runs le waiting down =
      let y =
        host_yield_lem sched tasks states (set_buffer s cells) k 0 set small runs le waiting down in
      rw y.1 (replies y.0.status y.0.state s' (k == sched.n_workers) y.2 y.3)
