-- ===== src/Examples/Crew.antt =====
-- The host and a worker of sched/rsched.c on a queue of two tasks, and the image they leave.
use mdb.Base.{
  inl, ◌⊎◌, ℕ, ◌+◌, ◌*◌, ◌≤◌, ◌<◌, ◌≡◌, ◌≢◌, refl, ap, sym, ◌∙◌, Bool, true, false, some, List, [],
  ◌∷◌, arith, done, ℕ_discrete, get_elem?,
}
use mathlib.Core.Bool.{false≢true}
use mdb.Claim
use mdb.Claim.Invariant.{times}
use mdb.Worker
use mdb.Worker.System
use mdb.Worker.Invariant.{parked}
use mdb.Worker.Serving.{IsServing}
use mdb.Crew
use mdb.Crew.Done.{host_yield_done}
use mdb.Crew.Rounds.{rounds, runs, rounds-runs}
use mdb.Queue
use mdb.Sched.{Status, success}
use mdb.Surface.Pixels.{IsValid, holding}
use mdb.Mandelbrot.Generic
use mdb.Mandelbrot.Native
use mdb.Mandelbrot.Drawn.{count_ratio}
use mdb.Frame.{run_tasks}
use mdb.Frame.Yield.{yield_frame, native_frame}
use mdb.Examples.Threads.{asked_reached}
use mdb.Examples.Frame.{
  tenths, half, two_blocks, create_two, queue_of_two, blank, blank_cells, blank-IsValid, ten_times,
  half-EscapesAt,
}

-- A worker that waits, with its function set.
abbrev set_up : System.System
set_up = record {
  mem = record { signal = 0; state = 2; task_count = 0; user_fun = true };
  worker = Worker.Pc.yield_exchange;
  host = Worker.HostPc.idle;
}

set_up_reached : System.Reach set_up
unfolding Worker.host_step
set_up_reached =
    System.Reach.later (System.Reach.later asked_reached (System.Step.host_moves false refl))
      (System.Step.set_user_fun true refl)

set_up-IsServing : IsServing set_up
set_up-IsServing = record { user_fun = refl; signal = inl refl; at_work = tt; sends = tt }

abbrev Reached : Type 0
Reached = (s : Crew.Crew) × Crew.Reach false 1 2 s

abbrev on : {s t : Crew.Crew} → Crew.Reach false 1 2 s → Crew.Step false 1 2 s t → Reached
on {t = t} r st = (t, Crew.Reach.later r st)

-- Neither at its pop nor at a task.
abbrev elsewhere : Worker.Pc → Bool
elsewhere Worker.Pc.loop_pop = false
elsewhere Worker.Pc.loop_task = false
elsewhere _ = true

off_pop : (p : Worker.Pc) → elsewhere p ≡ true → p ≢ Worker.Pc.loop_pop
off_pop p h e = false≢true (ap elsewhere (sym e) ∙ h)

off_task : (p : Worker.Pc) → elsewhere p ≡ true → p ≢ Worker.Pc.loop_task
off_task p h e = false≢true (ap elsewhere (sym e) ∙ h)

the_worker : 0 < 1
the_worker = omega arith

one_left : 1 < 2
one_left = omega arith

two_left : 0 < 2
two_left = omega arith

none_left : 2 ≤ 2
none_left = omega arith

-- The worker runs the first task and the host the second.
unfoldable finished : Reached
unfolding ℕ_discrete Worker.worker_step Worker.handle_sig Worker.host_step
finished =
    let r0 : Reached = (
      _,
      Crew.Reach.start (λ i. set_up) (λ i lt. set_up_reached) (λ i lt. refl)
          (λ i lt. set_up-IsServing),
    ) in
    let r1 = on r0.1 (Crew.Step.host_enters refl refl) in
    let r2 = on r1.1 (Crew.Step.host_sends 0 the_worker refl) in
    let r3 = on r2.1 (Crew.Step.send_moves 0 false the_worker refl refl) in
    let r4 = on r3.1 (Crew.Step.host_sent 0 the_worker refl refl) in
    let r5 = on r4.1 (Crew.Step.all_sent refl) in
    let r6 =
      on r5.1 (Crew.Step.worker_moves 0 the_worker (off_pop _ refl) (off_task _ refl) refl) in
    let r7 =
      on r6.1 (Crew.Step.worker_moves 0 the_worker (off_pop _ refl) (off_task _ refl) refl) in
    let r8 =
      on r7.1 (Crew.Step.worker_moves 0 the_worker (off_pop _ refl) (off_task _ refl) refl) in
    let r9 =
      on r8.1 (Crew.Step.worker_moves 0 the_worker (off_pop _ refl) (off_task _ refl) refl) in
    let r10 =
      on r9.1 (Crew.Step.worker_pops 0 the_worker refl refl (Claim.Move.load_task two_left)) in
    let r11 = on r10.1 (Crew.Step.worker_pops 0 the_worker refl refl (Claim.Move.win refl)) in
    let r12 = on r11.1 (Crew.Step.worker_takes 0 the_worker refl refl refl) in
    let r13 = on r12.1 (Crew.Step.host_pops refl refl (Claim.Move.load_task one_left)) in
    let r14 = on r13.1 (Crew.Step.host_pops refl refl (Claim.Move.win refl)) in
    let r15 = on r14.1 (Crew.Step.host_runs refl refl) in
    let r16 = on r15.1 (Crew.Step.host_pops refl refl (Claim.Move.load_empty none_left)) in
    let r17 = on r16.1 (Crew.Step.host_empty refl refl) in
    let r18 = on r17.1 (Crew.Step.worker_runs 0 the_worker refl refl refl) in
    let r19 =
      on r18.1 (Crew.Step.worker_moves 0 the_worker (off_pop _ refl) (off_task _ refl) refl) in
    let r20 =
      on r19.1 (Crew.Step.worker_moves 0 the_worker (off_pop _ refl) (off_task _ refl) refl) in
    let r21 =
      on r20.1 (Crew.Step.worker_pops 0 the_worker refl refl (Claim.Move.load_empty none_left)) in
    let r22 = on r21.1 (Crew.Step.worker_empty 0 the_worker refl refl refl) in
    let r23 =
      on r22.1 (Crew.Step.worker_moves 0 the_worker (off_pop _ refl) (off_task _ refl) refl) in
    let r24 =
      on r23.1 (Crew.Step.worker_moves 0 the_worker (off_pop _ refl) (off_task _ refl) refl) in
    let r25 = on r24.1 (Crew.Step.host_asks 0 the_worker refl) in
    let r26 = on r25.1 (Crew.Step.read_moves 0 false the_worker refl refl refl) in
    let r27 = on r26.1 (Crew.Step.read_moves 0 false the_worker refl refl refl) in
    let r28 = on r27.1 (Crew.Step.is_waiting 0 the_worker refl refl) in
    let r29 = on r28.1 (Crew.Step.all_waiting refl) in r29

host_yield_done_example :
    ((j : ℕ) → j < 2 → times j finished.0.ran ≡ 1)
    × ((j : ℕ) → 2 < j → times j finished.0.ran ≡ 0)
    × ((i : ℕ) → i < 1 → parked (finished.0.workers i).worker ≡ true)
unfolding finished
host_yield_done_example = host_yield_done (omega arith) finished.1 refl

host_ran_second : finished.0.ran ≡ 0 ∷ 1 ∷ []
unfolding finished
host_ran_second = refl

yield_frame_example :
    (times 2 finished.0.ran ≡ 1)
    ⊎ ((cells' : List ℕ) × (run_tasks
            (Generic.process_block tenths half)
            queue_of_two.tasks
            (1 ∷ 0 ∷ [])
            (holding blank blank_cells)
          ≡ done (holding blank cells'))
        × IsValid blank cells'
        × (get_elem? cells' (7 * 16 + 15) ≡ some (Generic.norm_color tenths half 15 7)))
unfolding finished
yield_frame_example =
    yield_frame two_blocks Queue.init (1 ∷ 0 ∷ []) (omega arith) (omega arith) create_two finished.1
      refl (λ j. omega arith) blank {cells = blank_cells} {x = 15} {y = 7} refl refl blank-IsValid
      (omega arith) (omega arith) tenths half

native_frame_example :
    (times 2 finished.0.ran ≡ 1)
    ⊎ ((cells' : List ℕ) × (run_tasks
            (Native.process_block tenths half)
            queue_of_two.tasks
            (1 ∷ 0 ∷ [])
            (holding blank blank_cells)
          ≡ done (holding blank cells'))
        × IsValid blank cells'
        × (get_elem? cells' (7 * 16 + 15) ≡ some (count_ratio tenths half 15 7)))
unfolding finished
native_frame_example =
    native_frame two_blocks Queue.init (1 ∷ 0 ∷ []) (omega arith) (omega arith) create_two
      finished.1 refl (λ j. omega arith) blank {cells = blank_cells} {x = 15} {y = 7} refl refl
      blank-IsValid (omega arith) (omega arith) tenths half ten_times (omega arith) half-EscapesAt

-- The same threads, with the requeue behind their round.
unfoldable requeued : Reached
unfolding finished
requeued = on finished.1 (Crew.Step.requeue refl)

one_round : rounds requeued.1 ≡ 1
unfolding requeued finished rounds
one_round = refl

rounds-runs_example :
    ((st : Status) → requeued.0.host ≡ Crew.HostPc.returned st → st ≡ success)
    × ((j : ℕ) → j < 2 → runs j requeued.1 ≡ rounds requeued.1)
rounds-runs_example = rounds-runs (omega arith) requeued.1
