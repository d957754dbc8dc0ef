-- ===== src/Examples/Kernel.antt =====
-- The kernel loader of kernel/mdb_kernel.c, and the view of the Mandelbrot kernels.
use mdb.Base.{
  replicate, done, ◌++◌, not, ℕ, ◌+◌, ◌*◌, ◌≡◌, refl, Bool, true, false, none, [], ◌∷◌, arith,
}
use mdb.Features
use mdb.Features.Text.{separated, chosen, cpu_features_to_str_lem}
use mdb.Loader
use mdb.Loader.Balance.{IsClean, made, create-IsClean, create_frees_twice}
use mdb.View
use mdb.View.Metadata
use mdb.View.Bailout.{held, held_down}

-- A module that is complete, on a processor that lacks what it asks for where `lacks` is set.
abbrev module_of : Bool → Loader.Env
module_of lacks = record {
  named = true;
  opens = true;
  has = λ _. true;
  features = 256;
  supports = λ _. not lacks;
  init_ok = true;
}

create-IsClean_example : IsClean (Loader.create (module_of false))
unfolding Loader.check_cpu_features Features.cpu_check_features Features.probes Features.probe
create-IsClean_example = create-IsClean (module_of false) refl

create_frees_twice_example :
    let c = Loader.create (module_of true) in
    (made Loader.Call.free c.calls ≡ 2)
    × (made Loader.Call.dlclose c.calls ≡ 2)
    × (made Loader.Call.calloc c.calls ≡ 1)
    × (made Loader.Call.dlopen c.calls ≡ 1)
unfolding Loader.check_cpu_features Features.cpu_check_features Features.probes Features.probe
    Loader.load Loader.load_syms
create_frees_twice_example = create_frees_twice (module_of true) refl refl

-- Arithmetic on numbers, of which the bailout depends on none.
abbrev pub number_ops : View.FloatOps ℕ
number_ops = record {
  literal = λ d. d.digits;
  times = λ x d. x * d.digits;
  plus_times = λ x d y. x + d.digits * y;
  minus_times = λ x d y. x;
  reciprocal = λ n. 1;
  ratio = λ m n. 1;
}

abbrev pub at_bailout : ℕ → View.View ℕ
at_bailout b = record {
  bailout = b;
  width = 512;
  height = 512;
  shift_x = 0;
  shift_y = 0;
  scale = 1;
  surf = none;
  width_r = 1;
  height_r = 1;
  aspect_ratio = 1;
}

-- Seven times key 3, and then key 4, on a bailout of 8.
held_down_example :
    (View.events number_ops
      (replicate 7 (held View.Key.key_3) ++ (held View.Key.key_4 ∷ []))
      (at_bailout 8)).bailout
    ≡ 1
held_down_example =
    held_down number_ops 7 (held View.Key.key_4 ∷ []) (at_bailout 8) (omega arith) (omega arith)
      (omega arith)

-- MMX and AVX: "mmx,avx,", without an end.
cpu_features_to_str_lem_example :
    Features.cpu_features_to_str 129 256
    ≡ done (Features.told (separated (chosen Features.names 129) ++ (44 ∷ [])))
cpu_features_to_str_lem_example = cpu_features_to_str_lem 129 (omega arith)

mmx_avx : separated (chosen Features.names 129) ≡ 109 ∷ 109 ∷ 120 ∷ 44 ∷ 97 ∷ 118 ∷ 120 ∷ []
mmx_avx = refl

-- "ab", version 1.0
abbrev kernel_meta : Metadata.Meta
kernel_meta = record { name = 97 ∷ 98 ∷ []; ver_maj = 49 ∷ []; ver_min = 48 ∷ [] }
