-- ===== src/Profile/Samples.antt =====
-- What a series of times leaves.
use mdb.Base.{
  ℕ, ◌+◌, ◌-◌, ◌%◌, ◌^◌, ◌≤◌, ◌<◌, ◌≡◌, refl, ap, sym, ◌∙◌, false, List, [], ◌∷◌, min, length,
  arith, done, subst,
}
use Prim.Native.Nat.{max}
use mdb.Hist
use mdb.Hist.{Hist, wrap64}
use mdb.Hist.Search.{IsPartition}
use mdb.Hist.Counts.{counts, counts-init, add-keeps}
use mdb.Hist.Linear.{edge, init-IsPartition, init-length}
use mdb.Config.{ProfileHist}
use mdb.Timer.{Timespec, PerfTimer, perf_timer_diff_ns, perf_timer_start, perf_timer_stop}
use mdb.Profile.{
  Stat, stat_init, profile_start, profile_stop, profile, sample_max_time, sample_min_time,
}

-- The time from one end to the other, as the timer gives it.
abbrev pub time_of : Timespec × Timespec → ℕ
time_of t = perf_timer_diff_ns (record { start = t.0; end = t.1 })

time_of-word : (t : Timespec × Timespec) → time_of t < 2 ^ 64
unfolding perf_timer_diff_ns
time_of-word t = omega arith

abbrev pub greatest : List (Timespec × Timespec) → ℕ
greatest [] = 0
greatest (t ∷ ts) = max (time_of t) (greatest ts)

-- The least of the times, or the greatest word where there is none.
abbrev pub least : List (Timespec × Timespec) → ℕ
least [] = 2 ^ 64 - 1
least (t ∷ ts) = min (time_of t) (least ts)

least-word : (ts : List (Timespec × Timespec)) → least ts ≤ 2 ^ 64 - 1
least-word [] = omega arith
least-word (t ∷ ts) = omega (arith, least-word ts)

abbrev pub sum : List (Timespec × Timespec) → ℕ
sum [] = 0
sum (t ∷ ts) = time_of t + sum ts

profile_stop-step :
    (t : Timespec × Timespec) (stat : Stat) {hist : Hist}
    → Hist.add stat.hist (time_of t) ≡ done hist
    → profile_stop t.1 (profile_start t.0 stat)
      ≡ done (record {
        total = wrap64 (stat.total + time_of t);
        max = sample_max_time stat.max (time_of t);
        min = sample_min_time stat.min (time_of t);
        hist = hist;
        tm = record { start = t.0; end = t.1 };
      })
unfolding profile_stop profile_start perf_timer_start perf_timer_stop
profile_stop-step t stat e = rw e

sample_max_time_lem : (a b : ℕ) → sample_max_time a b ≡ max a b
unfolding sample_max_time
sample_max_time_lem a b = ground arith

sample_min_time_lem : (a b : ℕ) → sample_min_time a b ≡ min a b
unfolding sample_min_time
sample_min_time_lem a b = ground arith

pub profile_lem :
    {b : ℕ → ℕ} (ts : List (Timespec × Timespec)) (stat : Stat)
    → IsPartition stat.hist.bin stat.hist.size b
    → 0 < stat.hist.size
    → stat.hist.size + 2 ≤ 2 ^ 31
    → length stat.hist.bin ≡ stat.hist.size + 2
    → counts stat.hist.bin + length ts < 2 ^ 64
    → (stat.total < 2 ^ 64) × (stat.min < 2 ^ 64)
    → (stat' : Stat) × (profile ts stat ≡ done stat')
      × (stat'.max ≡ max stat.max (greatest ts))
      × (stat'.min ≡ min stat.min (least ts))
      × (stat'.total ≡ wrap64 (stat.total + sum ts))
      × (counts stat'.hist.bin ≡ counts stat.hist.bin + length ts)
unfolding profile
profile_lem [] stat part pos small len room words =
    (stat, refl, omega arith, omega arith, omega arith, omega arith)
profile_lem {b} (t ∷ ts) stat part pos small len room words =
    let (h, e, part', size', len', counts') =
      add-keeps (time_of t) part pos small len (omega arith) in
    let next : Stat = record {
      total = wrap64 (stat.total + time_of t);
      max = sample_max_time stat.max (time_of t);
      min = sample_min_time stat.min (time_of t);
      hist = h;
      tm = record { start = t.0; end = t.1 };
    } in
    let word : time_of t < 2 ^ 64 = time_of-word t in
    let upper = sample_max_time_lem stat.max (time_of t) in
    let lower = sample_min_time_lem stat.min (time_of t) in
    let (last, run, greatest', least', total', counted) =
      profile_lem ts next part' (omega (arith, size')) (omega (arith, size'))
        (omega (arith, size', len')) (omega (arith, counts')) (omega arith, omega (arith, lower)) in
    (
      last,
      rw (profile_stop-step t stat e) run,
      omega (arith, greatest', upper),
      omega (arith, least', lower),
      omega (arith, total'),
      omega (arith, counted, counts'),
    )

-- For a linear histogram of at least one bin and fewer than 2^31 - 1, on a 64-bit range whose
-- minimum is not above its maximum, and fewer than 2^64 times: `rsched_profile_start` and
-- `rsched_profile_stop` on each of them, from `rsched_profile_stat_init` on, return, and leave the
-- greatest time or 0, the least or 2^64 - 1, and the sum modulo 2^64; and the bins count, all
-- together, each time once.
pub samples_lem :
    (log_bound : ℕ → ℕ → ℕ → ℕ) (opts : ProfileHist) (tm : PerfTimer)
    (ts : List (Timespec × Timespec))
    → opts.log_scale ≡ false
    → opts.min ≤ opts.max
    → opts.max < 2 ^ 64
    → 0 < opts.size
    → opts.size + 2 ≤ 2 ^ 31
    → length ts < 2 ^ 64
    → (stat : Stat) × (profile ts (stat_init log_bound opts tm) ≡ done stat)
      × (stat.max ≡ greatest ts)
      × (stat.min ≡ least ts)
      × (stat.total ≡ sum ts % 2 ^ 64)
      × (counts stat.hist.bin ≡ length ts)
unfolding stat_init
samples_lem log_bound opts tm ts linear order word pos small short =
    let h = Hist.init log_bound opts.size opts.min opts.max opts.log_scale in
    let part : IsPartition h.bin h.size (edge opts.min opts.max opts.size) =
      subst
        (λ l.
          IsPartition (Hist.init log_bound opts.size opts.min opts.max l).bin opts.size
            (edge opts.min opts.max opts.size))
        (sym linear) (init-IsPartition log_bound opts.size order word) in
    let len : length h.bin ≡ opts.size + 2 =
      ap (λ l. length (Hist.init log_bound opts.size opts.min opts.max l).bin) linear
      ∙ init-length log_bound opts.size order word in
    let none_yet = counts-init log_bound opts.size opts.min opts.max opts.log_scale in
    let (stat, run, upper, lower, total, counted) =
      profile_lem ts (stat_init log_bound opts tm) part pos small len (omega (arith, none_yet))
        (omega arith, omega arith) in
    (
      stat,
      run,
      omega (arith, upper),
      omega (arith, lower, least-word ts),
      omega (arith, total),
      omega (arith, counted, none_yet),
    )
