-- ===== src/Loader/Balance.antt =====
-- That what `mdb_kernel_create` takes is given back once, and where it is given back twice.
use mdb.Base.{
  ℕ, ◌+◌, ◌≡◌, refl, true, false, none, some, List, [], ◌∷◌, ◌++◌, arith, Bool-cases, ◌⊎◌, inl, inr,
}
use mdb.Loader.{
  success, fail, Symbol, Call, calloc, free, dlopen, dlclose, shutdown, Env, load_syms, symbols,
  load, check_cpu_features, init, destroy, error_exit, create, Created, noinit, loaded, inited,
}

abbrev pub is : Call → Call → ℕ
is calloc calloc = 1
is free free = 1
is dlopen dlopen = 1
is dlclose dlclose = 1
is shutdown shutdown = 1
is _ _ = 0

-- How often a call is made.
abbrev pub made : Call → List Call → ℕ
made c [] = 0
made c (d ∷ ds) = is c d + made c ds

-- Everything taken is given back, and nothing twice.
abbrev pub IsBalanced : List Call → Type 0
IsBalanced cs = (made free cs ≡ made calloc cs) × (made dlclose cs ≡ made dlopen cs)

load_syms-cases :
    (env : Env) (ss : List Symbol)
    → (load_syms env ss ≡ (true, [])) ⊎ (load_syms env ss ≡ (false, dlclose ∷ []))
unfolding load_syms
load_syms-cases env [] = inl refl
load_syms-cases env (s ∷ ss) = elim (Bool-cases (env.has s)) [
  | inl yes_has ↦ rw yes_has (load_syms-cases env ss)
  | inr has_not ↦ rw has_not (inr refl)
]

-- What `mdb_kernel_load` comes to.
load-cases :
    (env : Env)
    → (load env ≡ record { status = fail; state = noinit; calls = [] })
      ⊎ (load env ≡ record { status = fail; state = noinit; calls = dlopen ∷ dlclose ∷ [] })
      ⊎ (load env ≡ record { status = success; state = loaded; calls = dlopen ∷ [] })
unfolding load
load-cases env = ground (arith, load_syms-cases env symbols)

-- What `mdb_kernel_create` leaves behind: on a failure nothing, on a success a kernel that is
-- initialized, and that `mdb_kernel_destroy` shuts down and gives back.
abbrev pub IsClean : Created → Type 0
IsClean c =
    ((c.status ≡ fail) × (c.kernel ≡ none) × IsBalanced c.calls)
    ⊎ ((c.status ≡ success)
        × (c.kernel ≡ some inited)
        × IsBalanced (c.calls ++ destroy inited)
        × (made shutdown (c.calls ++ destroy inited) ≡ 1))

-- Where the processor has what the module asks for: whatever else fails, everything that was taken
-- is given back exactly once, at once on a failure, and by `mdb_kernel_destroy` on a success.
pub create-IsClean : (env : Env) → check_cpu_features env ≡ success → IsClean (create env)
unfolding create error_exit init destroy
create-IsClean env ok = ground (arith, load-cases env)

-- Where the module loads and the processor lacks a feature that it asks for, the kernel is freed
-- twice and its handle closed twice.
pub create_frees_twice :
    (env : Env)
    → (load env).status ≡ success
    → check_cpu_features env ≡ fail
    → (made free (create env).calls ≡ 2)
      × (made dlclose (create env).calls ≡ 2)
      × (made calloc (create env).calls ≡ 1)
      × (made dlopen (create env).calls ≡ 1)
unfolding create error_exit destroy
create_frees_twice env ok missing = ground (arith, load-cases env)
