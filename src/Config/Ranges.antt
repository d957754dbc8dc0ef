-- ===== src/Config/Ranges.antt =====
-- What an accepted command line makes of the scheduler's options.
use mdb.Base.{ℕ, ◌^◌, ◌≤◌, ◌<◌, ◌≡◌, false, List, arith}
use mdb.Args.{ok}
use mdb.Args.Profile.{HistOptions}
use mdb.Args.Options.{Arguments, Opt, args_parse}
use mdb.Args.Bounds.{Fits, args_parse-IsSane}
use mdb.Hist.{init, bsearch}
use mdb.Hist.Search.{IsIndex, Returns}
use mdb.Hist.Linear.{edge, linear_bsearch}
use mdb.Config.{hist_options, optional_get, configure_rsched_options}

hist_options-size :
    (h : HistOptions) (size min max : ℕ)
    → Fits h.size
    → 8 ≤ size
    → size ≤ 1024
    → (8 ≤ (hist_options h size min max).size) × ((hist_options h size min max).size ≤ 1024)
unfolding hist_options optional_get
hist_options-size h size min max f l u = ground arith

-- Whatever command line is accepted, on a machine with a processor: there is at least one thread,
-- for the host, and each histogram has between 8 and 1024 bins.
pub configure_rsched_options-sizes :
    (os : List Opt) (nthreads : ℕ) {a : Arguments}
    → args_parse os ≡ ok a
    → 1 ≤ nthreads
    → let o = configure_rsched_options nthreads a in
      (1 ≤ o.threads)
      × ((8 ≤ o.run_hist.size) × (o.run_hist.size ≤ 1024))
      × ((8 ≤ o.task_hist.size) × (o.task_hist.size ≤ 1024))
      × ((8 ≤ o.payload_hist.size) × (o.payload_hist.size ≤ 1024))
unfolding configure_rsched_options
configure_rsched_options-sizes os nthreads {a} e some_cpu =
    let s = args_parse-IsSane os e in
    (
      ground (arith, s.threads),
      hist_options-size a.rsched.run_hist 8 1000000 30000000 s.run_size (omega arith) (omega arith),
      hist_options-size a.rsched.task_hist 16 20000 143000 s.task_size (omega arith) (omega arith),
      hist_options-size a.rsched.task_hist 16 20000 143000 s.task_size (omega arith) (omega arith),
    )

-- For an accepted command line, on a machine with a processor, that leaves the histogram of the run
-- times on a linear scale, with a minimum not above its maximum, below 2^64: a search in that
-- histogram returns the bin that holds the value, or the first of the two last bins for a value
-- below all bins, or the second for one from the end of the last bin on, also where that end lies
-- below the maximum.
pub run_hist-bsearch :
    (os : List Opt) (nthreads : ℕ) (log_bound : ℕ → ℕ → ℕ → ℕ) (val : ℕ) {a : Arguments}
    → args_parse os ≡ ok a
    → 1 ≤ nthreads
    → let h = (configure_rsched_options nthreads a).run_hist in
      h.log_scale ≡ false
      → h.min ≤ h.max
      → h.max < 2 ^ 64
      → Returns
          (IsIndex (edge h.min h.max h.size) h.size val)
          (bsearch (init log_bound h.size h.min h.max h.log_scale) val)
run_hist-bsearch os nthreads log_bound val {a} e some_cpu linear order word =
    let sizes = configure_rsched_options-sizes os nthreads e some_cpu in
    let h = (configure_rsched_options nthreads a).run_hist in
    rw linear
      (linear_bsearch log_bound h.size order word val (omega (arith, sizes))
        (omega (arith, sizes))).1
