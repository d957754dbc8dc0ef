-- ===== src/Timer/Digits.antt =====
-- The differences of times, and the numbers that are printed for them.
use mdb.Base.{ℕ, ◌+◌, ◌-◌, ◌*◌, ◌^◌, ◌≤◌, ◌<◌, ◌≡◌, ◌⊎◌, arith}
use mdb.Timer.{
  Timespec, PerfTimer, timespec_get_total_ns, perf_timer_diff_ns, perf_format_time, Printed, ns, mc,
  ms, seconds, ns_in_sec,
}

abbrev pub nanoseconds : Timespec → ℕ
nanoseconds t = t.tv_sec * ns_in_sec + t.tv_nsec

total_ns-nanoseconds :
    (t : Timespec) → nanoseconds t < 2 ^ 64 → timespec_get_total_ns t ≡ nanoseconds t
unfolding timespec_get_total_ns
total_ns-nanoseconds t h = ground arith

-- The distance of two times, where the timer was stopped after its start.
pub diff_ns_lem :
    (tm : PerfTimer)
    → nanoseconds tm.start ≤ nanoseconds tm.end
    → nanoseconds tm.end < 2 ^ 64
    → perf_timer_diff_ns tm ≡ nanoseconds tm.end - nanoseconds tm.start
unfolding perf_timer_diff_ns
diff_ns_lem tm order small =
    omega (arith, total_ns-nanoseconds tm.start (omega arith), total_ns-nanoseconds tm.end small)

-- What is printed for a number of nanoseconds, read back: its unit, and the number.
abbrev unit : Printed → ℕ
unit (ns n) = 1
unit (mc n) = 1000
unit (ms n) = 1000000
unit (seconds n) = 1

abbrev number : Printed → ℕ
number (ns n) = n
number (mc n) = n
number (ms n) = n
number (seconds n) = n

-- A time of less than ten seconds is printed by a number below 10000 in some unit, which is the
-- time rounded down by less than one of that unit, and which is 10 at least unless the unit is the
-- nanosecond.
format_time_lem :
    (n : ℕ)
    → n < 10 * ns_in_sec
    → let p = perf_format_time n in
      (number p < 10000)
      × (number p * unit p ≤ n)
      × (n < number p * unit p + unit p)
      × ((unit p ≡ 1) ⊎ (10 ≤ number p))
unfolding perf_format_time
format_time_lem n h = ground arith
