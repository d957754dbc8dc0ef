-- ===== src/Profile.antt =====
-- sched/rsched_profile.h and .c: the times of the runs, of the tasks and of their payloads that a
-- thread keeps. What the clock says is a parameter.
pub mod Samples
use mdb.Base.{ℕ, ◌+◌, ◌-◌, ◌/◌, ◌%◌, ◌^◌, List, [], ◌∷◌, ltb, if◌then◌else◌, Outcome, done, ◌>>=◌}
use mdb.Hist
use mdb.Hist.{Hist, wrap64}
use mdb.Timer.{Timespec, PerfTimer, perf_timer_start, perf_timer_stop, perf_timer_diff_ns}
use mdb.Config.{ProfileHist}

-- `struct profile_stat`
pub record Stat : Type 0 where
  pub total : ℕ
  pub max : ℕ
  pub min : ℕ
  pub hist : Hist
  pub tm : PerfTimer

-- `sample_max_time` and `sample_min_time`
unfoldable pub sample_max_time : ℕ → ℕ → ℕ
sample_max_time var sample = if ltb var sample then sample else var

unfoldable pub sample_min_time : ℕ → ℕ → ℕ
sample_min_time var sample = if ltb sample var then sample else var

-- `rsched_profile_stat_init`; the timer is as it was.
unfoldable pub stat_init : (ℕ → ℕ → ℕ → ℕ) → ProfileHist → PerfTimer → Stat
unfolding Hist.init
stat_init log_bound opts tm = record {
  max = 0;
  min = 2 ^ 64 - 1;
  total = 0;
  hist = Hist.init log_bound opts.size opts.min opts.max opts.log_scale;
  tm = tm;
}

unfoldable pub profile_start : Timespec → Stat → Stat
unfolding perf_timer_start
profile_start clock stat = record stat { tm = perf_timer_start clock stat.tm }

unfoldable pub profile_stop : Timespec → Stat → Outcome Stat
unfolding perf_timer_stop perf_timer_diff_ns sample_max_time sample_min_time Hist.add
profile_stop clock stat =
    let tm = perf_timer_stop clock stat.tm in
    let time = perf_timer_diff_ns tm in
    Hist.add stat.hist time >>= λ hist. done (record {
      total = wrap64 (stat.total + time);
      max = sample_max_time stat.max time;
      min = sample_min_time stat.min time;
      hist = hist;
      tm = tm;
    })

-- A series of times, each with what the clock says at its two ends.
unfoldable pub profile : List (Timespec × Timespec) → Stat → Outcome Stat
unfolding profile_start profile_stop
profile [] stat = done stat
profile (t ∷ ts) stat = profile_stop t.1 (profile_start t.0 stat) >>= λ stat'. profile ts stat'

-- The numbers that `print_worker_stats` prints besides those of the two statistics.
pub record Overhead : Type 0 where
  pub task_time_avg : ℕ
  pub payload_avg : ℕ
  pub overhead_total : ℕ
  pub overhead_avg : ℕ
  pub overhead_min : ℕ
  pub overhead_max : ℕ

-- `MAX(task_count, 1)`
abbrev max1 : ℕ → ℕ
max1 n = if ltb 1 n then n else 1

sub64 : ℕ → ℕ → ℕ
sub64 a b = wrap64 (a + 2 ^ 64 - b)

-- An `int64_t` is its bit pattern.
unfoldable pub print_worker_stats : ℕ → Stat → Stat → Overhead
unfolding sub64
print_worker_stats task_count task payload =
    let task_time_avg = task.total / max1 task_count in
    let payload_avg = payload.total / max1 task_count in
    record {
      task_time_avg = task_time_avg;
      payload_avg = payload_avg;
      overhead_total = sub64 task.total payload.total;
      overhead_avg = sub64 task_time_avg payload_avg;
      overhead_min = sub64 task.min payload.min;
      overhead_max = sub64 task.max payload.max;
    }
