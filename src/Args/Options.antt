-- ===== src/Args/Options.antt =====
-- tools/args_parser.c: one option, and a whole command line. `argp_parse` calls the parser with one
-- option after another, which are given as a list.
use mdb.Base.{ℕ, Bool, true, false, none, List, [], ◌∷◌}
use mdb.Args.Libc.{Str}
use mdb.Args.{
  Ran, ok, ◌>>=◌, Mode, oneshot, benchmark, render, parse_int, parse_block_size, parse_threads,
  parse_mode, parse_on_off, uint16_max, int_max, minus_one,
}
use mdb.Args.Profile.{HistOptions, RschedOptions, parse_rsched}

-- `struct arguments`; `threads` is an `int`.
pub record Arguments : Type 0 where
  pub width : ℕ
  pub height : ℕ
  pub bailout : ℕ
  pub block_size_x : ℕ
  pub block_size_y : ℕ
  pub kernel_name : Str
  pub threads : ℕ
  pub mode : Mode
  pub benchmark_runs : ℕ
  pub silent : Bool
  pub verbose : ℕ
  pub output_file : Str
  pub shader_colors : Bool
  pub rsched : RschedOptions

-- The keys of the options, with their arguments.
pub data Opt : Type 0 where
  opt_w opt_h opt_x opt_i opt_b opt_k opt_t opt_o key_mode key_bench_runs key_colors key_benchmark
        key_rsched :
      (arg : Str) → Opt
  key_render opt_q opt_s opt_v : Opt

-- `parse_opt` without `--kernel-list`, which lists files and ends the program.
unfoldable pub parse_opt : Opt → Arguments → Ran Arguments
parse_opt (opt_w arg) a = parse_int arg 512 uint16_max >>= λ n. ok (record a { width = n })
parse_opt (opt_h arg) a = parse_int arg 512 uint16_max >>= λ n. ok (record a { height = n })
parse_opt (opt_x arg) a =
    parse_int arg 512 uint16_max >>= λ n. ok (record a { width = n; height = n })
parse_opt (opt_i arg) a = parse_int arg 1 uint16_max >>= λ n. ok (record a { bailout = n })
parse_opt (opt_b arg) a =
    parse_block_size arg >>= λ b. ok (record a { block_size_x = b.0; block_size_y = b.1 })
parse_opt (opt_k arg) a = ok (record a { kernel_name = arg })
parse_opt (opt_t arg) a = parse_threads arg >>= λ n. ok (record a { threads = n })
parse_opt (opt_o arg) a = ok (record a { output_file = arg })
parse_opt (key_mode arg) a = parse_mode arg >>= λ m. ok (record a { mode = m })
parse_opt (key_bench_runs arg) a =
    parse_int arg 1 int_max >>= λ n. ok (record a { benchmark_runs = n })
parse_opt (key_colors arg) a = parse_on_off arg >>= λ b. ok (record a { shader_colors = b })
parse_opt (key_benchmark arg) a =
    parse_int arg 1 int_max >>= λ n. ok (record a { mode = benchmark; benchmark_runs = n })
parse_opt (key_rsched arg) a = parse_rsched arg a.rsched >>= λ r. ok (record a { rsched = r })
parse_opt key_render a = ok (record a { mode = render })
parse_opt opt_q a = ok (record a { silent = true })
parse_opt opt_s a = ok (record a { silent = true })
parse_opt opt_v a = ok (record a { verbose = 1 })

abbrev pub no_hist : HistOptions
no_hist = record { show = none; log_scale = none; size = none; min = none; max = none }

-- "mdb_generic"
abbrev pub default_kernel : Str
default_kernel = 109 ∷ 100 ∷ 98 ∷ 95 ∷ 103 ∷ 101 ∷ 110 ∷ 101 ∷ 114 ∷ 105 ∷ 99 ∷ []

-- "mandelbrot.hdr"
abbrev pub default_output : Str
default_output = 109 ∷ 97 ∷ 110 ∷ 100 ∷ 101 ∷ 108 ∷ 98 ∷ 114 ∷ 111 ∷ 116 ∷ 46 ∷ 104 ∷ 100 ∷ 114 ∷ []

-- The default values, of a build without `NDEBUG`.
unfoldable pub default_arguments : Arguments
default_arguments = record {
  width = 1024;
  height = 1024;
  bailout = 256;
  block_size_x = 32;
  block_size_y = 32;
  kernel_name = default_kernel;
  threads = minus_one;
  mode = oneshot;
  benchmark_runs = 100;
  silent = false;
  verbose = 2;
  output_file = default_output;
  shader_colors = true;
  rsched = record { run_hist = no_hist; task_hist = no_hist; payload_hist = no_hist };
}

unfoldable pub parse_opts : List Opt → Arguments → Ran Arguments
unfolding parse_opt
parse_opts [] a = ok a
parse_opts (o ∷ os) a = parse_opt o a >>= λ b. parse_opts os b

unfoldable pub args_parse : List Opt → Ran Arguments
unfolding default_arguments parse_opts
args_parse opts = parse_opts opts default_arguments
