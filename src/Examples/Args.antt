-- ===== src/Examples/Args.antt =====
-- The command line of tools/args_parser.c.
use mdb.Base.{◌≤◌, ◌≡◌, ◌≢◌, refl, List, [], ◌∷◌, ◌++◌, arith, done, true, false}
use mdb.Args
use mdb.Args.{Ran, ok, exits, overflow, timeout}
use mdb.Args.Libc.{Str, strtol, scan_digits}
use mdb.Args.Profile.{parse_sub_key_val}
use mdb.Args.KeyVal.{parse_sub_key_val-append}
use mdb.Args.Options
use mdb.Args.Options.{Arguments, Opt, args_parse, no_hist}
use mdb.Args.Bounds.{IsSane, args_parse-IsSane}
use mdb.Args.Ending.{args_parse-Ends}
use mdb.Args.Geometry.{grain_of, args_parse-drawn}
use mdb.Config
use mdb.Config.Ranges.{run_hist-bsearch}
use mdb.Hist
use mdb.Hist.{bsearch}
use mdb.Hist.Search.{IsIndex, Returns}
use mdb.Hist.Linear.{edge}
use mdb.Queue.{Queue, Task, init}
use mdb.Queue.Push.{Stores}
use mdb.Tasks.{queue_len, create_tasks}
use mdb.Tasks.Cover.{drawn}

-- "600" and "8x16"
abbrev six_hundred : Str
six_hundred = 54 ∷ 48 ∷ 48 ∷ []

abbrev eight_by_sixteen : Str
eight_by_sixteen = 56 ∷ 120 ∷ 49 ∷ 54 ∷ []

-- "4294967808", which is 2^32 + 512
abbrev wide_number : Str
wide_number = 52 ∷ 50 ∷ 57 ∷ 52 ∷ 57 ∷ 54 ∷ 55 ∷ 56 ∷ 48 ∷ 56 ∷ []

-- It is taken for 512.
parse_int-wide : Args.parse_int wide_number 512 65535 ≡ ok 512
unfolding Args.parse_int strtol scan_digits
parse_int-wide = refl

abbrev options : List Opt
options = Opt.opt_x six_hundred ∷ Opt.opt_b eight_by_sixteen ∷ Opt.opt_v ∷ []

abbrev accepted : Arguments
accepted = record {
  width = 600;
  height = 600;
  bailout = 256;
  block_size_x = 8;
  block_size_y = 16;
  kernel_name = Options.default_kernel;
  threads = 4294967295;
  mode = Args.Mode.oneshot;
  benchmark_runs = 100;
  silent = false;
  verbose = 1;
  output_file = Options.default_output;
  shader_colors = true;
  rsched = record { run_hist = no_hist; task_hist = no_hist; payload_hist = no_hist };
}

options-accepted : args_parse options ≡ ok accepted
unfolding args_parse Options.parse_opts Options.parse_opt Options.default_arguments Args.parse_int
    Args.parse_int_c Args.parse_block_size strtol scan_digits
options-accepted = refl

args_parse-IsSane_example : IsSane accepted
args_parse-IsSane_example = args_parse-IsSane options options-accepted

args_parse-Ends_example : args_parse options ≢ timeout
args_parse-Ends_example = args_parse-Ends options

four_cells : 4 ≤ queue_len 600 600 (grain_of accepted)
unfolding queue_len
four_cells = omega arith

args_parse-drawn_example :
    (q' : Queue) × (ts : List Task) × (create_tasks init 600 600 (grain_of accepted) ≡ done q')
    × Stores q' ts
    × (q'.cur_task_idx ≡ 0)
    × (1 ≤ drawn 599 0 ts)
args_parse-drawn_example =
    args_parse-drawn options init {x = 599} {y = 0} options-accepted four_cells (omega arith)
      (omega arith)

-- "size=8,show=1"
parse_sub_key_val-append_example :
    parse_sub_key_val (
      (115 ∷ 105 ∷ 122 ∷ 101 ∷ [])
      ++ (61 ∷ ((56 ∷ []) ++ (44 ∷ (115 ∷ 104 ∷ 111 ∷ 119 ∷ 61 ∷ 49 ∷ [])))))
    ≡ ok (115 ∷ 105 ∷ 122 ∷ 101 ∷ [], 56 ∷ [], 115 ∷ 104 ∷ 111 ∷ 119 ∷ 61 ∷ 49 ∷ [])
parse_sub_key_val-append_example =
    parse_sub_key_val-append (115 ∷ 105 ∷ 122 ∷ 101 ∷ []) (56 ∷ [])
      (115 ∷ 104 ∷ 111 ∷ 119 ∷ 61 ∷ 49 ∷ []) (omega arith) (omega arith) (omega arith) (omega arith)

run_hist-bsearch_example :
    let h = (Config.configure_rsched_options 4 accepted).run_hist in
    Returns
      (IsIndex (edge h.min h.max h.size) h.size 2000000)
      (bsearch (Hist.init (λ w s i. 0) h.size h.min h.max h.log_scale) 2000000)
unfolding Config.configure_rsched_options Config.hist_options Config.optional_get
run_hist-bsearch_example =
    run_hist-bsearch options 4 (λ w s i. 0) 2000000 options-accepted (omega arith) refl
      (omega arith) (omega arith)
