-- ===== src/Examples/Times.antt =====
-- The times of tools/timer.h and sched/rsched_profile.h.
use mdb.Base.{ℕ, ◌%◌, ◌^◌, ◌≡◌, refl, true, false, List, [], ◌∷◌, arith, done}
use mdb.Timer.{
  Timespec, PerfTimer, Printed, perf_format_time, perf_timer_diff_ns, timespec_get_total_ns,
}
use mdb.Hist.Counts.{counts}
use mdb.Config.{ProfileHist}
use mdb.Profile.{Stat, stat_init, profile}
use mdb.Profile.Samples.{time_of, greatest, least, sum, samples_lem}

abbrev at : ℕ → ℕ → Timespec
at s n = record { tv_sec = s; tv_nsec = n }

-- Times of 300, 2000 and 40 nanoseconds, the second over the end of a second.
abbrev three_times : List (Timespec × Timespec)
three_times = (at 1 0, at 1 300) ∷ (at 1 999999000, at 2 1000) ∷ (at 0 10, at 0 50) ∷ []

across : time_of (at 1 999999000, at 2 1000) ≡ 2000
unfolding perf_timer_diff_ns timespec_get_total_ns
across = refl

abbrev ten_bins : ProfileHist
ten_bins = record { show = true; log_scale = false; size = 10; min = 0; max = 1000 }

abbrev unset : PerfTimer
unset = record { start = at 0 0; end = at 0 0 }

samples_lem_example :
    (stat : Stat) × (profile three_times (stat_init (λ w s i. 0) ten_bins unset) ≡ done stat)
    × (stat.max ≡ greatest three_times)
    × (stat.min ≡ least three_times)
    × (stat.total ≡ sum three_times % 2 ^ 64)
    × (counts stat.hist.bin ≡ 3)
samples_lem_example =
    samples_lem (λ w s i. 0) ten_bins unset three_times refl (omega arith) (omega arith)
      (omega arith) (omega arith) (omega arith)

longest : greatest three_times ≡ 2000
unfolding perf_timer_diff_ns timespec_get_total_ns
longest = refl

twelve : perf_format_time 12345678 ≡ Printed.ms 12
unfolding perf_format_time
twelve = refl
