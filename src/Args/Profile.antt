-- ===== src/Args/Profile.antt =====
-- tools/args_parser.c, `--rsched`: options of the histograms, as key=value separated by commas.
use mdb.Base.{
  ℕ, zero, suc, ◌*◌, ◌%◌, ◌^◌, Bool, Option, none, some, [], ◌∷◌, ltb, ◌==◌, not, if◌then◌else◌,
  length,
}
use mdb.Args.Libc.{Str, strtoul, strcmp_eq, split_at, strip}
use mdb.Args.{Ran, ok, exits, overflow, timeout, ◌>>=◌, parse_int}

-- `struct arg_rsched_hist`: an option that is not set is `none`.
pub record HistOptions : Type 0 where
  pub show : Option Bool
  pub log_scale : Option Bool
  pub size : Option ℕ
  pub min : Option ℕ
  pub max : Option ℕ

pub record RschedOptions : Type 0 where
  pub run_hist : HistOptions
  pub task_hist : HistOptions
  pub payload_hist : HistOptions

-- "s", "mc", "ms" and "ns"
unfoldable pub parse_convert_time_postfix : ℕ → Str → Ran ℕ
parse_convert_time_postfix val postfix =
    if strcmp_eq (115 ∷ []) postfix
    then ok (val * 1000000000 % 2 ^ 64)
    else if strcmp_eq (109 ∷ 99 ∷ []) postfix
    then ok (val * 1000 % 2 ^ 64)
    else if strcmp_eq (109 ∷ 115 ∷ []) postfix
    then ok (val * 1000000 % 2 ^ 64)
    else if strcmp_eq (110 ∷ 115 ∷ []) postfix
    then ok val
    else exits

-- `parse_u64_next` with a place for the rest.
unfoldable pub parse_u64_next : Str → Option (ℕ × Str)
parse_u64_next val = let s = strtoul val in if s.range_error then none else some (s.value, s.rest)

unfoldable pub time_value_of : Option (ℕ × Str) → Ran ℕ
unfolding parse_convert_time_postfix
time_value_of none = exits
time_value_of (some (val, [])) = exits
time_value_of (some (val, c ∷ cs)) = parse_convert_time_postfix val (c ∷ cs)

unfoldable pub parse_time_value : Str → Ran ℕ
unfolding time_value_of parse_u64_next
parse_time_value arg = time_value_of (parse_u64_next arg)

-- The text up to the comma and behind it; without one, all of it and the empty end.
unfoldable pub value_of : Str → Option (Str × Str) → Str × Str
value_of text none = (text, [])
value_of text (some p) = p

-- The buffers for the key and the value, of 64 bytes each, take a terminator as well.
unfoldable pub copied : Str → Str × Str → Ran (Str × Str × Str)
copied key (val, next) =
    if ltb (length key) 64
    then (if ltb (length val) 64 then ok (key, val, next) else overflow)
    else overflow

unfoldable pub key_val_of : Option (Str × Str) → Ran (Str × Str × Str)
unfolding copied value_of
key_val_of none = exits
key_val_of (some (key, text)) = copied key (value_of text (split_at 44 text))

-- `parse_sub_key_val` with the test of its status in `parse_hist_opts`: the key, the value and
-- the text behind. 61 is '=', 44 is ','.
unfoldable pub parse_sub_key_val : Str → Ran (Str × Str × Str)
unfolding key_val_of
parse_sub_key_val arg = key_val_of (split_at 61 arg)

abbrev pub show_lab : Str
show_lab = 115 ∷ 104 ∷ 111 ∷ 119 ∷ []

abbrev pub log_scale_lab : Str
log_scale_lab = 108 ∷ 111 ∷ 103 ∷ 95 ∷ 115 ∷ 99 ∷ 97 ∷ 108 ∷ 101 ∷ []

abbrev pub min_lab : Str
min_lab = 109 ∷ 105 ∷ 110 ∷ []

abbrev pub max_lab : Str
max_lab = 109 ∷ 97 ∷ 120 ∷ []

abbrev pub size_lab : Str
size_lab = 115 ∷ 105 ∷ 122 ∷ 101 ∷ []

-- The keys differ, so that at most one of the tests of the loop's body holds.
unfoldable pub set_hist_opt : HistOptions → Str → Str → Ran HistOptions
unfolding parse_time_value
set_hist_opt hist key val =
    if strcmp_eq show_lab key
    then (parse_int val 0 1 >>= λ i. ok (record hist { show = some (not (i == 0)) }))
    else if strcmp_eq size_lab key
    then (parse_int val 8 1024 >>= λ i. ok (record hist { size = some i }))
    else if strcmp_eq log_scale_lab key
    then (parse_int val 0 1 >>= λ i. ok (record hist { log_scale = some (not (i == 0)) }))
    else if strcmp_eq min_lab key
    then (parse_time_value val >>= λ time. ok (record hist { min = some time }))
    else if strcmp_eq max_lab key
    then (parse_time_value val >>= λ time. ok (record hist { max = some time }))
    else ok hist

-- The loop of `parse_hist_opts`, on fuel.
unfoldable pub hist_opts : ℕ → Str → HistOptions → Ran HistOptions
unfolding parse_sub_key_val set_hist_opt
hist_opts zero next_opt hist = timeout
hist_opts (suc fuel) [] hist = ok hist
hist_opts (suc fuel) (c ∷ cs) hist = parse_sub_key_val (c ∷ cs) >>= λ (key, val, next).
    set_hist_opt hist key val >>= λ hist'. hist_opts fuel next hist'

-- A round for each character, and one for the exit.
unfoldable pub parse_hist_opts : Str → HistOptions → Ran HistOptions
unfolding hist_opts
parse_hist_opts arg hist = hist_opts (suc (length arg)) arg hist

-- `is_sub_opt` with a place for the rest: one character behind the word is passed over.
unfoldable pub rest_of : Option Str → Option Str
rest_of none = none
rest_of (some []) = none
rest_of (some (c ∷ cs)) = some cs

unfoldable pub is_sub_opt : Str → Str → Option Str
unfolding rest_of
is_sub_opt opt arg = rest_of (strip opt arg)

abbrev pub profile_word : Str
profile_word = 112 ∷ 114 ∷ 111 ∷ 102 ∷ 105 ∷ 108 ∷ 101 ∷ []

abbrev pub run_hist_word : Str
run_hist_word = 114 ∷ 117 ∷ 110 ∷ 95 ∷ 104 ∷ 105 ∷ 115 ∷ 116 ∷ []

abbrev pub task_hist_word : Str
task_hist_word = 116 ∷ 97 ∷ 115 ∷ 107 ∷ 95 ∷ 104 ∷ 105 ∷ 115 ∷ 116 ∷ []

abbrev pub payload_hist_word : Str
payload_hist_word = 112 ∷ 97 ∷ 121 ∷ 108 ∷ 111 ∷ 97 ∷ 100 ∷ 95 ∷ 104 ∷ 105 ∷ 115 ∷ 116 ∷ []

-- What follows an option, or else the next test.
unfoldable pub on_rest {ℓ} : {A : Type ℓ} → Option Str → (Str → Ran A) → Ran A → Ran A
on_rest none found others = others
on_rest (some next) found others = found next

-- `parse_rsched_profile`, whose failure ends the program in `parse_rsched`.
unfoldable pub parse_rsched_profile : Str → RschedOptions → Ran RschedOptions
unfolding on_rest
parse_rsched_profile arg rsched =
    on_rest (is_sub_opt run_hist_word arg)
      (λ next. parse_hist_opts next rsched.run_hist >>= λ h. ok (record rsched { run_hist = h }))
      (on_rest (is_sub_opt task_hist_word arg)
        (λ next.
          parse_hist_opts next rsched.task_hist >>= λ h. ok (record rsched { task_hist = h }))
        (on_rest (is_sub_opt payload_hist_word arg)
          (λ next. parse_hist_opts next rsched.payload_hist >>= λ h.
            ok (record rsched { payload_hist = h }))
          exits))

unfoldable pub parse_rsched : Str → RschedOptions → Ran RschedOptions
unfolding on_rest
parse_rsched arg rsched =
    on_rest (is_sub_opt profile_word arg) (λ opt_arg. parse_rsched_profile opt_arg rsched) exits
