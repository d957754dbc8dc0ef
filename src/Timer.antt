-- ===== src/Timer.antt =====
-- tools/timer.h: times in nanoseconds. What `clock_gettime` stores is a parameter of the functions
-- that call it.
pub mod Digits
use mdb.Base.{ℕ, ◌+◌, ◌-◌, ◌*◌, ◌/◌, ◌%◌, ◌^◌, ltb, ◌==◌, if◌then◌else◌}

abbrev pub ns_in_sec : ℕ
ns_in_sec = 1000000000

abbrev pub ns_in_ms : ℕ
ns_in_ms = 1000000

abbrev pub ns_in_mcs : ℕ
ns_in_mcs = 1000

-- `struct timespec`, of a clock that has begun at 0.
pub record Timespec : Type 0 where
  pub tv_sec : ℕ
  pub tv_nsec : ℕ

unfoldable pub timespec_get_total_ns : Timespec → ℕ
timespec_get_total_ns ts =
    if ts.tv_sec == 0 then ts.tv_nsec else (ts.tv_sec * ns_in_sec % 2 ^ 64 + ts.tv_nsec) % 2 ^ 64

pub record PerfTimer : Type 0 where
  pub start : Timespec
  pub end : Timespec

unfoldable pub perf_timer_start : Timespec → PerfTimer → PerfTimer
perf_timer_start clock tm = record tm { start = clock }

unfoldable pub perf_timer_stop : Timespec → PerfTimer → PerfTimer
perf_timer_stop clock tm = record tm { end = clock }

unfoldable pub perf_timer_diff_ns : PerfTimer → ℕ
unfolding timespec_get_total_ns
perf_timer_diff_ns tm =
    (timespec_get_total_ns tm.end + 2 ^ 64 - timespec_get_total_ns tm.start) % 2 ^ 64

-- What `perf_format_time` prints: a number with its unit, or a number of seconds as a float.
pub data Printed : Type 0 where
  ns : ℕ → Printed
  mc : ℕ → Printed
  ms : ℕ → Printed
  seconds : (ns : ℕ) → Printed

unfoldable pub perf_format_time : ℕ → Printed
perf_format_time n =
    if ltb n (10 * ns_in_mcs)
    then ns n
    else if ltb n (10 * ns_in_ms)
    then mc (n / ns_in_mcs)
    else if ltb n (10 * ns_in_sec)
    then ms (n / ns_in_ms)
    else seconds n
