-- ===== src/Args/Bounds.antt =====
-- What a command line that is accepted leaves in the arguments.
use mdb.Base.{ℕ, zero, suc, ◌≤◌, ◌≡◌, ◌⊎◌, Option, none, some, List, [], ◌∷◌, arith, length}
use mdb.Args.Libc.{Str, strcmp_eq}
use mdb.Args.{
  ok, timeout, ◌>>=◌, parse_int, parse_block_size, parse_threads, parse_mode, parse_on_off,
  uint16_max, int_max, minus_one,
}
use mdb.Args.Profile.{
  HistOptions, RschedOptions, parse_time_value, parse_sub_key_val, show_lab, size_lab,
  log_scale_lab, min_lab, max_lab, set_hist_opt, hist_opts, parse_hist_opts, is_sub_opt,
  run_hist_word, task_hist_word, payload_hist_word, profile_word, parse_rsched_profile,
  parse_rsched,
}
use mdb.Args.Options.{
  Arguments, Opt, opt_w, opt_h, opt_x, opt_i, opt_b, opt_k, opt_t, opt_o, key_mode, key_bench_runs,
  key_colors, key_benchmark, key_rsched, parse_opt, default_arguments, parse_opts, args_parse,
}
use mdb.Args.Ensures.{
  Ensures, ok-Ensures, exits-Ensures, if-Ensures, on_rest-Ensures, >>=-Ensures, any-Ensures,
}
use mdb.Args.Numbers.{parse_int-ok, parse_block_size-ok, parse_threads-ok}

-- The size of a histogram, where it is set.
abbrev pub Fits : Option ℕ → Type 0
Fits none = Unit
Fits (some n) = (8 ≤ n) × (n ≤ 1024)

pub record IsSane (a : Arguments) : Type 0 where
  pub width : (512 ≤ a.width) × (a.width ≤ uint16_max)
  pub height : (512 ≤ a.height) × (a.height ≤ uint16_max)
  pub bailout : (1 ≤ a.bailout) × (a.bailout ≤ uint16_max)
  pub block_x : (8 ≤ a.block_size_x) × (a.block_size_x ≤ uint16_max)
  pub block_y : (8 ≤ a.block_size_y) × (a.block_size_y ≤ uint16_max)
  pub threads : (a.threads ≡ minus_one) ⊎ ((1 ≤ a.threads) × (a.threads ≤ int_max))
  pub runs : (1 ≤ a.benchmark_runs) × (a.benchmark_runs ≤ int_max)
  pub run_size : Fits a.rsched.run_hist.size
  pub task_size : Fits a.rsched.task_hist.size
  pub payload_size : Fits a.rsched.payload_hist.size

number_in :
    (val : Str) (lo hi : ℕ)
    → lo ≤ hi
    → hi ≤ int_max
    → Ensures (λ n. (lo ≤ n) × (n ≤ hi)) (parse_int val lo hi)
number_in val lo hi l h = record {
  holds = λ n e. let r = parse_int-ok val lo hi {n = n} l h e in (r.0, r.1);
}

set_hist_opt-Ensures :
    (hist : HistOptions) (key val : Str)
    → Fits hist.size
    → Ensures (λ h. Fits h.size) (set_hist_opt hist key val)
unfolding set_hist_opt
set_hist_opt-Ensures hist key val f =
    if-Ensures (strcmp_eq show_lab key) (any-Ensures (parse_int val 0 1) (λ i. ok-Ensures f)) (
      if-Ensures (strcmp_eq size_lab key)
        (>>=-Ensures (parse_int val 8 1024) (number_in val 8 1024 (omega arith) (omega arith))
          (λ i q. ok-Ensures q))
        (if-Ensures (strcmp_eq log_scale_lab key)
          (any-Ensures (parse_int val 0 1) (λ i. ok-Ensures f))
          (if-Ensures (strcmp_eq min_lab key)
            (any-Ensures (parse_time_value val) (λ t. ok-Ensures f))
            (if-Ensures (strcmp_eq max_lab key)
              (any-Ensures (parse_time_value val) (λ t. ok-Ensures f)) (ok-Ensures f)))))

timeout-Ensures : Ensures (λ (h : HistOptions). Fits h.size) timeout
timeout-Ensures = record { holds = λ a e. cc }

hist_opts-Ensures :
    (fuel : ℕ) (text : Str) (hist : HistOptions)
    → Fits hist.size
    → Ensures (λ h. Fits h.size) (hist_opts fuel text hist)
unfolding hist_opts
hist_opts-Ensures zero text hist f = timeout-Ensures
hist_opts-Ensures (suc fuel) [] hist f = ok-Ensures f
hist_opts-Ensures (suc fuel) (c ∷ cs) hist f = any-Ensures (parse_sub_key_val (c ∷ cs)) (λ p.
    >>=-Ensures (set_hist_opt hist p.0 p.1) (set_hist_opt-Ensures hist p.0 p.1 f)
      (λ h q. hist_opts-Ensures fuel p.2 h q))

abbrev SizesFit : RschedOptions → Type 0
SizesFit r = Fits r.run_hist.size × Fits r.task_hist.size × Fits r.payload_hist.size

parse_hist_opts-Ensures :
    (text : Str) (hist : HistOptions)
    → Fits hist.size
    → Ensures (λ h. Fits h.size) (parse_hist_opts text hist)
unfolding parse_hist_opts
parse_hist_opts-Ensures text hist f = hist_opts-Ensures (suc (length text)) text hist f

parse_rsched_profile-Ensures :
    (arg : Str) (r : RschedOptions) → SizesFit r → Ensures SizesFit (parse_rsched_profile arg r)
unfolding parse_rsched_profile
parse_rsched_profile-Ensures arg r f =
    on_rest-Ensures (is_sub_opt run_hist_word arg)
      (λ t.
        >>=-Ensures (parse_hist_opts t r.run_hist) (parse_hist_opts-Ensures t r.run_hist f.0)
          (λ h q. ok-Ensures (q, f.1, f.2)))
      (on_rest-Ensures (is_sub_opt task_hist_word arg)
        (λ t.
          >>=-Ensures (parse_hist_opts t r.task_hist) (parse_hist_opts-Ensures t r.task_hist f.1)
            (λ h q. ok-Ensures (f.0, q, f.2)))
        (on_rest-Ensures (is_sub_opt payload_hist_word arg)
          (λ t.
            >>=-Ensures (parse_hist_opts t r.payload_hist)
              (parse_hist_opts-Ensures t r.payload_hist f.2) (λ h q. ok-Ensures (f.0, f.1, q)))
          exits-Ensures))

parse_rsched-Ensures :
    (arg : Str) (r : RschedOptions) → SizesFit r → Ensures SizesFit (parse_rsched arg r)
unfolding parse_rsched
parse_rsched-Ensures arg r f =
    on_rest-Ensures (is_sub_opt profile_word arg) (λ t. parse_rsched_profile-Ensures t r f)
      exits-Ensures

-- An option whose number is put into a field.
number_opt-IsSane :
    (arg : Str) (lo hi : ℕ) {f : ℕ → Arguments}
    → lo ≤ hi
    → hi ≤ int_max
    → ((n : ℕ) → lo ≤ n → n ≤ hi → IsSane (f n))
    → Ensures IsSane (parse_int arg lo hi >>= λ n. ok (f n))
number_opt-IsSane arg lo hi l h k =
    >>=-Ensures (parse_int arg lo hi) (number_in arg lo hi l h) (λ n q. ok-Ensures (k n q.0 q.1))

parse_opt-IsSane : (o : Opt) (a : Arguments) → IsSane a → Ensures IsSane (parse_opt o a)
unfolding parse_opt
parse_opt-IsSane (opt_w arg) a s =
    number_opt-IsSane arg 512 uint16_max (omega arith) (omega arith) (λ n p q. ground (arith, s))
parse_opt-IsSane (opt_h arg) a s =
    number_opt-IsSane arg 512 uint16_max (omega arith) (omega arith) (λ n p q. ground (arith, s))
parse_opt-IsSane (opt_x arg) a s =
    number_opt-IsSane arg 512 uint16_max (omega arith) (omega arith) (λ n p q. ground (arith, s))
parse_opt-IsSane (opt_i arg) a s =
    number_opt-IsSane arg 1 uint16_max (omega arith) (omega arith) (λ n p q. ground (arith, s))
parse_opt-IsSane (key_bench_runs arg) a s =
    number_opt-IsSane arg 1 int_max (omega arith) (omega arith) (λ n p q. ground (arith, s))
parse_opt-IsSane (key_benchmark arg) a s =
    number_opt-IsSane arg 1 int_max (omega arith) (omega arith) (λ n p q. ground (arith, s))
parse_opt-IsSane (opt_b arg) a s =
    >>=-Ensures (parse_block_size arg) (record { holds = λ b e. parse_block_size-ok arg {b = b} e })
      (λ b q. ok-Ensures (ground (arith, s, q)))
parse_opt-IsSane (opt_t arg) a s =
    >>=-Ensures (parse_threads arg) (record { holds = λ n e. parse_threads-ok arg {n = n} e })
      (λ n q. ok-Ensures (ground (arith, s, q)))
parse_opt-IsSane (key_mode arg) a s =
    any-Ensures (parse_mode arg) (λ m. ok-Ensures (ground (arith, s)))
parse_opt-IsSane (key_colors arg) a s =
    any-Ensures (parse_on_off arg) (λ b. ok-Ensures (ground (arith, s)))
parse_opt-IsSane (key_rsched arg) a s =
    >>=-Ensures (parse_rsched arg a.rsched)
      (parse_rsched-Ensures arg a.rsched (s.run_size, s.task_size, s.payload_size))
      (λ r q. ok-Ensures (ground (arith, s, q)))
parse_opt-IsSane (opt_k arg) a s = ok-Ensures (ground (arith, s))
parse_opt-IsSane (opt_o arg) a s = ok-Ensures (ground (arith, s))
parse_opt-IsSane _ a s = ok-Ensures (ground (arith, s))

parse_opts-IsSane : (os : List Opt) (a : Arguments) → IsSane a → Ensures IsSane (parse_opts os a)
unfolding parse_opts
parse_opts-IsSane [] a s = ok-Ensures s
parse_opts-IsSane (o ∷ os) a s =
    >>=-Ensures (parse_opt o a) (parse_opt-IsSane o a s) (λ b t. parse_opts-IsSane os b t)

default_arguments-IsSane : IsSane default_arguments
unfolding default_arguments
default_arguments-IsSane = ground arith

-- Whatever the options are: the arguments that an accepted command line leaves are in their bounds.
-- The sides of the surface are between 512 and 65535, those of a block between 8 and 65535, the
-- bailout between 1 and 65535, the runs a positive `int`, the threads that or -1, and the sizes of
-- the histograms between 8 and 1024 where they are set.
pub args_parse-IsSane : (os : List Opt) {a : Arguments} → args_parse os ≡ ok a → IsSane a
unfolding args_parse
args_parse-IsSane os {a} e =
    (parse_opts-IsSane os default_arguments default_arguments-IsSane).holds a e
