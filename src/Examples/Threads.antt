-- ===== src/Examples/Threads.antt =====
-- The threads of sched/rsched_queue.h, sched/rsched_worker.c and app/benchmark.c.
use mdb.Base.{
  ℕ, ◌%◌, ◌^◌, ◌≡◌, ◌≢◌, refl, ◌⊎◌, true, false, [], ◌∷◌, arith, ℕ_discrete, add32, length,
}
use mdb.Claim
use mdb.Claim.Overrun
use mdb.Claim.Overrun.{overrun, lost_race_stuck}
use mdb.Worker
use mdb.Worker.System
use mdb.Worker.Invariant.{parked, get_state-parked}
use mdb.Worker.Lost
use mdb.Worker.Lost.{sent, resting, pending, send_overwrites, send_lost, quit_lost}
use mdb.Bench
use mdb.Bench.Summary.{sum, AllWithin, summary_lem}

-- One thread takes the only task of a queue, and then finds it empty.
abbrev took_one : Claim.Pool
took_one = record {
  mem = record { counter = 1; taken = 0 ∷ [] };
  pc =
      Claim.update (Claim.update (λ _. Claim.Pc.idle) 0 (Claim.Pc.expects 0)) 0
        (Claim.Pc.claimed 0);
}

took_one_reached : Claim.Reach true 1 1 took_one
unfolding ℕ_discrete
took_one_reached =
    Claim.Reach.later
      (Claim.Reach.later Claim.Reach.start
        (Claim.Step.pick 0 (omega arith) (Claim.Move.load_task (omega arith))))
      (Claim.Step.pick 0 (omega arith) (Claim.Move.win refl))

abbrev found_none : Claim.Pool
found_none = record {
  mem = record { counter = 1; taken = 0 ∷ [] };
  pc = Claim.update (Claim.update took_one.pc 0 Claim.Pc.idle) 0 Claim.Pc.empty;
}

found_none_reached : Claim.Reach true 1 1 found_none
unfolding ℕ_discrete
found_none_reached =
    Claim.Reach.later
      (Claim.Reach.later took_one_reached (Claim.Step.pick 0 (omega arith) Claim.Move.again))
      (Claim.Step.pick 0 (omega arith) (Claim.Move.load_empty (omega arith)))

overrun_example : (s : Claim.Pool) × Claim.Reach false 2 5 s × (s.pc 0 ≡ Claim.Pc.claimed 5)
overrun_example = overrun (omega arith) (omega arith)

-- The counter at 3 of 8, and a thread that expects 4.
abbrev three_taken : Claim.Shared
three_taken = record { counter = 3; taken = 2 ∷ 1 ∷ 0 ∷ [] }

turns_once : Overrun.Alone false 8 three_taken (Claim.Pc.expects 4) three_taken (Claim.Pc.expects 4)
turns_once = Overrun.Alone.on Overrun.Alone.rest (Claim.Move.lose_task (omega arith) (omega arith))

lost_race_stuck_example :
    (three_taken ≡ three_taken) × (Claim.Pc.expects 4 ≡ Claim.Pc.expects (add32 3 1))
lost_race_stuck_example = lost_race_stuck (omega arith) turns_once (omega arith) refl

-- The host asks a worker that has just started to wait for its state.
abbrev pub waits : Worker.Shared
waits = record { signal = 0; state = 2; task_count = 0; user_fun = false }

abbrev pub asked : System.System
asked = record { mem = waits; worker = Worker.Pc.yield_exchange; host = Worker.HostPc.got 2 }

pub asked_reached : System.Reach asked
unfolding Worker.worker_step Worker.host_step
asked_reached =
    System.Reach.later
      (System.Reach.later
        (System.Reach.later
          (System.Reach.later System.Reach.start (System.Step.worker_moves false refl))
          (System.Step.get_state refl))
        (System.Step.host_moves false refl))
      (System.Step.host_moves false refl)

get_state-parked_example :
    (parked Worker.Pc.yield_exchange ≡ true) × ((0 ≡ Worker.sig_none) ⊎ (0 ≡ Worker.sig_locked))
get_state-parked_example = get_state-parked asked_reached refl

-- The host ends the worker, and asks again.
abbrev ended : System.System
ended = record {
  mem = record { signal = 0; state = Worker.st_down; task_count = 0; user_fun = false };
  worker = Worker.Pc.gone;
  host = Worker.HostPc.got Worker.st_down;
}

ended_reached : System.Reach ended
unfolding Worker.worker_step Worker.host_step Worker.handle_sig
ended_reached =
    let waiting = System.Reach.later System.Reach.start (System.Step.worker_moves false refl) in
    let quits = System.Reach.later waiting (System.Step.send 4 (omega arith) (omega arith) refl) in
    let sent_quit = System.Reach.later quits (System.Step.host_moves false refl) in
    let received = System.Reach.later sent_quit (System.Step.worker_moves false refl) in
    let exits = System.Reach.later received (System.Step.worker_moves false refl) in
    let down = System.Reach.later exits (System.Step.worker_moves false refl) in
    let left = System.Reach.later down (System.Step.worker_moves false refl) in
    let asks = System.Reach.later left (System.Step.get_state refl) in
    let loads = System.Reach.later asks (System.Step.host_moves false refl) in
    System.Reach.later loads (System.Step.host_moves false refl)

-- The worker turns once more after the signal is lost.
abbrev turned : System.System
turned = record {
  mem = record { signal = Worker.sig_locked; state = 2; task_count = 0; user_fun = true };
  worker = Worker.Pc.yield_unlock;
  host = Worker.HostPc.idle;
}

turned-Alone : Lost.Alone (resting 2 0 true) turned
unfolding Worker.worker_step
turned-Alone = Lost.Alone.on false Lost.Alone.rest refl

quit_lost_example :
    (r : Lost.Run (resting 2 0 true) (resting 2 0 true)) × (sent r ≡ Worker.sig_quit ∷ [])
    × (Worker.Pc.yield_unlock ≢ Worker.Pc.gone)
quit_lost_example = quit_lost 2 0 true turned-Alone

-- START with a function set
abbrev told_to_start : Worker.Shared
told_to_start = record { signal = 1; state = 2; task_count = 0; user_fun = true }

-- A thread measures a block of 5 ns, and takes the time into every value.
abbrev moves_to : Bench.Pc → (ℕ → Bench.Pc) → ℕ → Bench.Pc
moves_to p pc = Bench.update pc 0 p

abbrev measured_one : Bench.Pool
measured_one = record {
  mem = record {
    total = 5;
    min = 5;
    max = 5;
    block_count = 1;
    measured = 5 ∷ [];
    added = 5 ∷ [];
    counted = 5 ∷ [];
  };
  pc = moves_to Bench.Pc.idle (
      moves_to (Bench.Pc.add_count 5) (
        moves_to (Bench.Pc.add_total 5) (
          moves_to (Bench.Pc.swap_max 5 0) (
            moves_to (Bench.Pc.test_max 5 0) (
              moves_to (Bench.Pc.load_max 5) (
                moves_to (Bench.Pc.swap_min 5 Bench.uint64_max) (
                  moves_to (Bench.Pc.test_min 5 Bench.uint64_max)
                    (moves_to (Bench.Pc.load_min 5) (λ _. Bench.Pc.idle)))))))));
}

measured_one_reached : Bench.Reach false measured_one
unfolding ℕ_discrete Bench.create
measured_one_reached =
    let times =
      Bench.Reach.later Bench.Reach.start
        (Bench.Step.pick 0 (Bench.Move.measure 5 (omega arith))) in
    let loads = Bench.Reach.later times (Bench.Step.pick 0 Bench.Move.loads_min) in
    let tests = Bench.Reach.later loads (Bench.Step.pick 0 (Bench.Move.above_min (omega arith))) in
    let least = Bench.Reach.later tests (Bench.Step.pick 0 (Bench.Move.sets_min refl)) in
    let loads_again = Bench.Reach.later least (Bench.Step.pick 0 Bench.Move.loads_max) in
    let tests_again =
      Bench.Reach.later loads_again (Bench.Step.pick 0 (Bench.Move.below_max (omega arith))) in
    let greatest = Bench.Reach.later tests_again (Bench.Step.pick 0 (Bench.Move.sets_max refl)) in
    let total = Bench.Reach.later greatest (Bench.Step.pick 0 Bench.Move.adds) in
    Bench.Reach.later total (Bench.Step.pick 0 Bench.Move.counts)

summary_lem_example :
    AllWithin 5 5 (5 ∷ []) × (5 ≡ sum (5 ∷ []) % 2 ^ 64) × (1 ≡ length {A = ℕ} (5 ∷ []) % 2 ^ 64)
summary_lem_example = summary_lem measured_one_reached
