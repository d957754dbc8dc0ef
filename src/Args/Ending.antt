-- ===== src/Args/Ending.antt =====
-- That the parsers of the command line end: their loops never spend their fuel.
use mdb.Base.{
  ℕ, zero, suc, ◌<◌, ◌≡◌, ◌≢◌, refl, Bool, true, false, ◌||◌, if◌then◌else◌, Option, none, some,
  List, [], ◌∷◌, arith, length, ◌==◌,
}
use mdb.Args.Libc.{Str, strcmp_eq, strtol}
use mdb.Args.{
  Ran, ok, exits, overflow, timeout, ◌>>=◌, in_range, lt_int, parse_int, parse_int_c, block_height,
  parse_block_size, parse_threads, parse_mode, parse_on_off, uint16_max, int_max, auto_word,
}
use mdb.Args.Profile.{
  HistOptions, RschedOptions, parse_time_value, parse_u64_next, time_value_of,
  parse_convert_time_postfix, copied, key_val_of, parse_sub_key_val, show_lab, size_lab,
  log_scale_lab, min_lab, max_lab, set_hist_opt, hist_opts, parse_hist_opts, is_sub_opt,
  run_hist_word, task_hist_word, payload_hist_word, profile_word, on_rest, parse_rsched_profile,
  parse_rsched,
}
use mdb.Args.Options.{
  Arguments, Opt, opt_w, opt_h, opt_x, opt_i, opt_b, opt_t, key_mode, key_bench_runs, key_colors,
  key_benchmark, key_rsched, parse_opt, default_arguments, parse_opts, args_parse,
}
use mdb.Args.KeyVal.{parse_sub_key_val-shorter}

pub record Ends {ℓ} {A : Type ℓ} (m : Ran A) : Type ℓ where
  pub ends : m ≢ timeout

ok-Ends {ℓ} : {A : Type ℓ} {a : A} → Ends (ok a)
ok-Ends = record { ends = λ e. cc }

exits-Ends {ℓ} : {A : Type ℓ} → Ends {A = A} exits
exits-Ends = record { ends = λ e. cc }

if-Ends {ℓ} : {A : Type ℓ} (b : Bool) {x y : Ran A} → Ends x → Ends y → Ends (if b then x else y)
if-Ends true p q = p
if-Ends false p q = q

>>=-Ends {ℓ κ} :
    {A : Type ℓ} {B : Type κ} (m : Ran A) {f : A → Ran B}
    → Ends m
    → ((a : A) → m ≡ ok a → Ends (f a))
    → Ends (m >>= f)
>>=-Ends (ok a) p k = k a refl
>>=-Ends exits p k = exits-Ends
>>=-Ends overflow p k = record { ends = λ e. cc }
>>=-Ends timeout p k = absurd (p.ends refl)

in_range-Ends : (i lo hi : ℕ) → Ends (in_range i lo hi)
unfolding in_range
in_range-Ends i lo hi = if-Ends (lt_int i lo || lt_int hi i) exits-Ends ok-Ends

parse_int-Ends : (val : Str) (lo hi : ℕ) → Ends (parse_int val lo hi)
unfolding parse_int in_range
parse_int-Ends val lo hi = record { ends = λ e. ground (arith, e) }

parse_int_c-Ends : (val : Str) (lo hi : ℕ) → Ends (parse_int_c val lo hi)
unfolding parse_int_c
parse_int_c-Ends val lo hi =
    if-Ends (strtol val).range_error exits-Ends
      (>>=-Ends (in_range _ lo hi) (in_range-Ends _ lo hi) (λ a e. ok-Ends))

block_height-Ends : (p : ℕ × Str) → Ends (block_height p)
unfolding block_height
block_height-Ends (x, []) = ok-Ends
block_height-Ends (x, c ∷ cs) =
    if-Ends (c == 120)
      (>>=-Ends (parse_int cs 8 uint16_max) (parse_int-Ends cs 8 uint16_max) (λ a e. ok-Ends))
      exits-Ends

parse_block_size-Ends : (val : Str) → Ends (parse_block_size val)
unfolding parse_block_size
parse_block_size-Ends val =
    >>=-Ends (parse_int_c val 8 uint16_max) (parse_int_c-Ends val 8 uint16_max)
      (λ p e. block_height-Ends p)

parse_threads-Ends : (arg : Str) → Ends (parse_threads arg)
unfolding parse_threads
parse_threads-Ends arg = if-Ends (strcmp_eq arg auto_word) ok-Ends (parse_int-Ends arg 1 int_max)

parse_mode-Ends : (arg : Str) → Ends (parse_mode arg)
unfolding parse_mode
parse_mode-Ends arg = record { ends = λ e. ground (arith, e) }

parse_on_off-Ends : (arg : Str) → Ends (parse_on_off arg)
unfolding parse_on_off
parse_on_off-Ends arg = record { ends = λ e. ground (arith, e) }

time_value_of-Ends : (o : Option (ℕ × Str)) → Ends (time_value_of o)
unfolding time_value_of parse_convert_time_postfix
time_value_of-Ends none = exits-Ends
time_value_of-Ends (some (val, [])) = exits-Ends
time_value_of-Ends (some (val, c ∷ cs)) = record { ends = λ e. ground (arith, e) }

parse_time_value-Ends : (arg : Str) → Ends (parse_time_value arg)
unfolding parse_time_value
parse_time_value-Ends arg = time_value_of-Ends (parse_u64_next arg)

parse_sub_key_val-Ends : (arg : Str) → Ends (parse_sub_key_val arg)
unfolding parse_sub_key_val key_val_of copied
parse_sub_key_val-Ends arg = record { ends = λ e. ground (arith, e) }

set_hist_opt-Ends : (hist : HistOptions) (key val : Str) → Ends (set_hist_opt hist key val)
unfolding set_hist_opt
set_hist_opt-Ends hist key val =
    if-Ends (strcmp_eq show_lab key)
      (>>=-Ends (parse_int val 0 1) (parse_int-Ends val 0 1) (λ a e. ok-Ends))
      (if-Ends (strcmp_eq size_lab key)
        (>>=-Ends (parse_int val 8 1024) (parse_int-Ends val 8 1024) (λ a e. ok-Ends))
        (if-Ends (strcmp_eq log_scale_lab key)
          (>>=-Ends (parse_int val 0 1) (parse_int-Ends val 0 1) (λ a e. ok-Ends))
          (if-Ends (strcmp_eq min_lab key)
            (>>=-Ends (parse_time_value val) (parse_time_value-Ends val) (λ a e. ok-Ends))
            (if-Ends (strcmp_eq max_lab key)
              (>>=-Ends (parse_time_value val) (parse_time_value-Ends val) (λ a e. ok-Ends))
              ok-Ends))))

-- A round uses up a key and its value.
hist_opts-Ends :
    (fuel : ℕ) (text : Str) (hist : HistOptions)
    → length text < fuel
    → Ends (hist_opts fuel text hist)
unfolding hist_opts
hist_opts-Ends zero text hist h = absurd (omega arith)
hist_opts-Ends (suc fuel) [] hist h = ok-Ends
hist_opts-Ends (suc fuel) (c ∷ cs) hist h =
    >>=-Ends (parse_sub_key_val (c ∷ cs)) (parse_sub_key_val-Ends (c ∷ cs)) (λ r e.
      >>=-Ends (set_hist_opt hist r.0 r.1) (set_hist_opt-Ends hist r.0 r.1) (λ hist' e'.
        hist_opts-Ends fuel r.2 hist'
          (omega (arith, parse_sub_key_val-shorter (c ∷ cs) {r = r} e))))

parse_hist_opts-Ends : (text : Str) (hist : HistOptions) → Ends (parse_hist_opts text hist)
unfolding parse_hist_opts
parse_hist_opts-Ends text hist = hist_opts-Ends (suc (length text)) text hist (omega arith)

on_rest-Ends {ℓ} :
    {A : Type ℓ} (o : Option Str) {found : Str → Ran A} {others : Ran A}
    → ((next : Str) → Ends (found next))
    → Ends others
    → Ends (on_rest o found others)
unfolding on_rest
on_rest-Ends none p q = q
on_rest-Ends (some next) p q = p next

parse_rsched-Ends : (arg : Str) (r : RschedOptions) → Ends (parse_rsched arg r)
unfolding parse_rsched parse_rsched_profile
parse_rsched-Ends arg r =
    on_rest-Ends (is_sub_opt profile_word arg)
      (λ t.
        on_rest-Ends (is_sub_opt run_hist_word t)
          (λ u.
            >>=-Ends (parse_hist_opts u r.run_hist) (parse_hist_opts-Ends u r.run_hist)
              (λ a e. ok-Ends))
          (on_rest-Ends (is_sub_opt task_hist_word t)
            (λ u.
              >>=-Ends (parse_hist_opts u r.task_hist) (parse_hist_opts-Ends u r.task_hist)
                (λ a e. ok-Ends))
            (on_rest-Ends (is_sub_opt payload_hist_word t)
              (λ u.
                >>=-Ends (parse_hist_opts u r.payload_hist) (parse_hist_opts-Ends u r.payload_hist)
                  (λ a e. ok-Ends))
              exits-Ends)))
      exits-Ends

parse_opt-Ends : (o : Opt) (a : Arguments) → Ends (parse_opt o a)
unfolding parse_opt
parse_opt-Ends (opt_w arg) a =
    >>=-Ends (parse_int arg 512 uint16_max) (parse_int-Ends arg 512 uint16_max) (λ a e. ok-Ends)
parse_opt-Ends (opt_h arg) a =
    >>=-Ends (parse_int arg 512 uint16_max) (parse_int-Ends arg 512 uint16_max) (λ a e. ok-Ends)
parse_opt-Ends (opt_x arg) a =
    >>=-Ends (parse_int arg 512 uint16_max) (parse_int-Ends arg 512 uint16_max) (λ a e. ok-Ends)
parse_opt-Ends (opt_i arg) a =
    >>=-Ends (parse_int arg 1 uint16_max) (parse_int-Ends arg 1 uint16_max) (λ a e. ok-Ends)
parse_opt-Ends (key_bench_runs arg) a =
    >>=-Ends (parse_int arg 1 int_max) (parse_int-Ends arg 1 int_max) (λ a e. ok-Ends)
parse_opt-Ends (key_benchmark arg) a =
    >>=-Ends (parse_int arg 1 int_max) (parse_int-Ends arg 1 int_max) (λ a e. ok-Ends)
parse_opt-Ends (opt_b arg) a =
    >>=-Ends (parse_block_size arg) (parse_block_size-Ends arg) (λ a e. ok-Ends)
parse_opt-Ends (opt_t arg) a =
    >>=-Ends (parse_threads arg) (parse_threads-Ends arg) (λ a e. ok-Ends)
parse_opt-Ends (key_mode arg) a = >>=-Ends (parse_mode arg) (parse_mode-Ends arg) (λ a e. ok-Ends)
parse_opt-Ends (key_colors arg) a =
    >>=-Ends (parse_on_off arg) (parse_on_off-Ends arg) (λ a e. ok-Ends)
parse_opt-Ends (key_rsched arg) a =
    >>=-Ends (parse_rsched arg a.rsched) (parse_rsched-Ends arg a.rsched) (λ a e. ok-Ends)
parse_opt-Ends _ a = ok-Ends

parse_opts-Ends : (os : List Opt) (a : Arguments) → Ends (parse_opts os a)
unfolding parse_opts
parse_opts-Ends [] a = ok-Ends
parse_opts-Ends (o ∷ os) a =
    >>=-Ends (parse_opt o a) (parse_opt-Ends o a) (λ b e. parse_opts-Ends os b)

-- Whatever the options are, parsing ends: the rounds that the loop over the options of a histogram
-- is given are enough.
pub args_parse-Ends : (os : List Opt) → args_parse os ≢ timeout
unfolding args_parse
args_parse-Ends os = (parse_opts-Ends os default_arguments).ends
