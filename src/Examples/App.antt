-- ===== src/Examples/App.antt =====
-- `main` of app/main.c in two of its modes.
use mdb.Base.{true, false}
use mdb.App

-- Two runs that fail.
abbrev runs_fail : App.Env
runs_fail = record {
  mode = App.Mode.benchmark;
  width = 1024;
  height = 768;
  benchmark_runs = 2;
  kernel_made = true;
  sched_made = true;
  memory = true;
  shown = false;
  yields = λ run. false;
  saved = false;
}

abbrev no_memory : App.Env
no_memory = record {
  mode = App.Mode.benchmark;
  width = 65535;
  height = 65535;
  benchmark_runs = 50;
  kernel_made = true;
  sched_made = true;
  memory = false;
  shown = true;
  yields = λ run. true;
  saved = true;
}
