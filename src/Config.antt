-- ===== src/Config.antt =====
-- app/main.c, `configure_rsched_options`: from the arguments to the options of the scheduler.
pub mod Ranges
use mdb.Base.{
  ℕ, ◌<◌, ◌≡◌, ◌*◌, ◌+◌, ◌^◌, ◌%◌, Bool, true, false, Option, none, some, ltb, leb, if◌then◌else◌,
}
use mdb.Args.Profile.{HistOptions}
use mdb.Args.Options.{Arguments}

-- `optional_get`
unfoldable pub optional_get {ℓ} : {A : Type ℓ} → Option A → A → A
optional_get none default = default
optional_get (some value) default = value

-- `struct rsched_profile_hist_options`
pub record ProfileHist : Type 0 where
  pub show : Bool
  pub log_scale : Bool
  pub size : ℕ
  pub min : ℕ
  pub max : ℕ

-- `struct rsched_options`
pub record SchedOptions : Type 0 where
  pub threads : ℕ
  pub run_hist : ProfileHist
  pub task_hist : ProfileHist
  pub payload_hist : ProfileHist

-- One histogram, with its defaults for the size and the range.
unfoldable pub hist_options : HistOptions → ℕ → ℕ → ℕ → ProfileHist
unfolding optional_get
hist_options h size min max = record {
  show = optional_get h.show true;
  log_scale = optional_get h.log_scale false;
  size = optional_get h.size size;
  min = optional_get h.min min;
  max = optional_get h.max max;
}

-- `nthreads` is what `get_nthreads` returns. A negative number of threads stands for it.
unfoldable pub configure_rsched_options : ℕ → Arguments → SchedOptions
unfolding hist_options
configure_rsched_options nthreads a =
    let task = hist_options a.rsched.task_hist 16 20000 143000 in
    record {
      threads = if leb (2 ^ 31) a.threads then nthreads else a.threads;
      run_hist = hist_options a.rsched.run_hist 8 1000000 30000000;
      task_hist = task;
      payload_hist = task;
    }
