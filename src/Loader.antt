-- ===== src/Loader.antt =====
-- kernel/mdb_kernel.c and .h: loading a kernel module, and giving it back. The dynamic linker, the
-- module and the processor are a parameter. Calls that take or give back a resource are recorded
-- in the order in which they are made. The state is read as it was also where `create` has freed
-- the kernel before.
pub mod Balance
use mdb.Features.{Name, cpu_check_features}
use mdb.Base.{
  ℕ, ◌≡◌, Bool, true, false, Option, none, some, List, [], ◌∷◌, ◌++◌, not, ◌&&◌, ◌==◌, leb,
  if◌then◌else◌,
}

pub data Status : Type 0 where
  success fail : Status

-- The symbols, in the order in which they are looked up.
pub data Symbol : Type 0 where
  init_fun shutdown_fun cpu_features_fun metadata_query_fun event_handler_fun block_fun
        set_size_fun :
      Symbol
  set_surface_fun register_log_context : Symbol

pub data Call : Type 0 where
  calloc free dlopen dlclose shutdown : Call

abbrev pub noinit : ℕ
noinit = 0

abbrev pub loaded : ℕ
loaded = 1

abbrev pub inited : ℕ
inited = 2

-- What `mdb_kernel_create` finds: whether a name is given, whether the module opens, which symbols
-- it has, the features it asks for, those that the processor supports, and
-- whether its own initialization succeeds.
pub record Env : Type 0 where
  pub named : Bool
  pub opens : Bool
  pub has : Symbol → Bool
  pub features : ℕ
  pub supports : Name → Bool
  pub init_ok : Bool

-- What a function hands back: its status, the kernel's state, and the calls made.
pub record Loaded : Type 0 where
  pub status : Status
  pub state : ℕ
  pub calls : List Call

abbrev pub symbols : List Symbol
symbols =
    init_fun ∷ shutdown_fun ∷ cpu_features_fun ∷ metadata_query_fun ∷ event_handler_fun ∷ block_fun
    ∷ set_size_fun ∷ set_surface_fun ∷ register_log_context ∷ []

-- `load_sym` on each of them: the first that is missing closes the module, and ends the function.
unfoldable pub load_syms : Env → List Symbol → Bool × List Call
load_syms env [] = (true, [])
load_syms env (s ∷ ss) = if env.has s then load_syms env ss else (false, dlclose ∷ [])

unfoldable pub load : Env → Loaded
unfolding load_syms
load env =
    if not env.named
    then record { status = fail; state = noinit; calls = [] }
    else if not env.opens
    then record { status = fail; state = noinit; calls = [] }
    else let (ok, closed) = load_syms env symbols in
      if ok
      then record { status = success; state = loaded; calls = dlopen ∷ closed }
      else record { status = fail; state = noinit; calls = dlopen ∷ closed }

unfoldable pub check_cpu_features : Env → Status
check_cpu_features env =
    if env.features == 0
    then success
    else if cpu_check_features env.supports env.features == 0
    then success
    else fail

-- `mdb_kernel_init`, and the state it leaves.
unfoldable pub init : Env → ℕ → Status × ℕ
init env state = if env.init_ok then (success, inited) else (fail, state)

-- `mdb_kernel_destroy`, by the state of the kernel.
unfoldable pub destroy : ℕ → List Call
destroy state =
    (if leb inited state then shutdown ∷ [] else [])
    ++ ((if leb loaded state then dlclose ∷ [] else []) ++ (free ∷ []))

-- What `mdb_kernel_create` hands back: the pointer is null unless the status is a success.
pub record Created : Type 0 where
  pub status : Status
  pub kernel : Option ℕ
  pub calls : List Call

-- `error_exit`, after the calls made so far.
unfoldable pub error_exit : ℕ → List Call → Created
unfolding destroy
error_exit state calls = record { status = fail; kernel = none; calls = calls ++ destroy state }

unfoldable pub create : Env → Created
unfolding load check_cpu_features init error_exit destroy
create env =
    let l = load env in
    let made = calloc ∷ l.calls in
    elim l.status [
      | fail ↦ error_exit l.state made
      | success ↦ elim (check_cpu_features env) [
        | fail ↦ error_exit l.state (made ++ destroy l.state)
        | success ↦
            let (ok, state) = init env l.state in
            elim ok [
              | fail ↦ error_exit state made
              | success ↦ record { status = success; kernel = some state; calls = made }
            ]
      ]
    ]
