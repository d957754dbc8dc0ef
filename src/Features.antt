-- ===== src/Features.antt =====
-- tools/cpu_features.c. What `__builtin_cpu_supports` answers for the name of
-- each feature is a parameter.
pub mod Masks
pub mod Text
use Prim.Native.Nat.{bit_xor}
use mdb.Base.{
  ℕ, zero, suc, ◌^◌, ◌<◌, ◌≡◌, refl, Bool, true, false, ◌&&◌, ◌==◌, List, [], ◌∷◌, if◌then◌else◌,
  has_flag, ◌+◌, ◌-◌, ◌++◌, leb, length, Option, none, some, Outcome, done, fault, ◌>>=◌,
}

pub data Name : Type 0 where
  mmx sse sse2 sse3 ssse3 sse4_1 sse4_2 avx avx2 : Name

-- `__cpu_probe_feature`
unfoldable pub probe : (Name → Bool) → ℕ → Name → ℕ → ℕ
probe supports feature name mask =
    if has_flag mask feature then (if supports name then bit_xor mask feature else mask) else mask

-- The bits of the features, with the names that are asked for. That of FMA is "avx2".
abbrev pub features : List (ℕ × Name)
features =
    (1, mmx)
    ∷ (2, sse)
    ∷ (4, sse2)
    ∷ (8, sse3)
    ∷ (16, ssse3)
    ∷ (32, sse4_1)
    ∷ (64, sse4_2)
    ∷ (128, avx)
    ∷ (256, avx2)
    ∷ (512, avx2)
    ∷ []

-- One probe after another, until no bit is left.
unfoldable pub probes : (Name → Bool) → List (ℕ × Name) → ℕ → ℕ
unfolding probe
probes supports [] mask = mask
probes supports ((feature, name) ∷ fs) mask =
    let rest = probes supports fs (probe supports feature name mask) in
    if mask == 0 then mask else rest

unfoldable pub cpu_check_features : (Name → Bool) → ℕ → ℕ
unfolding probes
cpu_check_features supports mask = probes supports features mask

-- `str_append`: the text so far, and the bytes left. A text is a list of character codes, of which
-- 44 is ','.
unfoldable pub str_append : List ℕ → ℕ → List ℕ → Option (List ℕ × ℕ)
str_append text left src =
    if leb (length src + 1) left
    then some (text ++ (src ++ (44 ∷ [])), left - (length src + 1))
    else none

-- `*(buff-1) = 0`, which is before the buffer where nothing has been written.
unfoldable pub terminate : List ℕ → Outcome (List ℕ)
terminate [] = fault
terminate (c ∷ []) = done (0 ∷ [])
terminate (c ∷ d ∷ text) = terminate (d ∷ text) >>= λ text'. done (c ∷ text')

-- What `cpu_features_to_str` returns, and what it has written from the start of the buffer.
pub data Told : Type 0 where
  told : List ℕ → Told  -- 0
  too_long : Told  -- -1

-- A feature, its name, and whether the function goes to `exit` when no bit is left behind it.
abbrev pub names : List (ℕ × List ℕ × Bool)
names =
    (1, (109 ∷ 109 ∷ 120 ∷ []), true)
    ∷ (2, (115 ∷ 115 ∷ 101 ∷ []), true)
    ∷ (4, (115 ∷ 115 ∷ 101 ∷ 50 ∷ []), true)
    ∷ (8, (115 ∷ 115 ∷ 101 ∷ 51 ∷ []), true)
    ∷ (16, (115 ∷ 115 ∷ 115 ∷ 101 ∷ 51 ∷ []), true)
    ∷ (32, (115 ∷ 115 ∷ 101 ∷ 52 ∷ 46 ∷ 49 ∷ []), true)
    ∷ (64, (115 ∷ 115 ∷ 101 ∷ 52 ∷ 46 ∷ 50 ∷ []), true)
    ∷ (128, (97 ∷ 118 ∷ 120 ∷ []), false)
    ∷ (256, (97 ∷ 118 ∷ 120 ∷ 50 ∷ []), false)
    ∷ (512, (102 ∷ 109 ∷ 97 ∷ []), true)
    ∷ []

unfoldable pub finish : Bool → List ℕ → Outcome Told
unfolding terminate
finish true text = terminate text >>= λ text'. done (told text')
finish false text = done (told text)

-- The text and the rest of the mask behind one feature, or `none` where it does not fit.
unfoldable pub strcpy_feature : ℕ → List ℕ → ℕ → List ℕ → ℕ → Option (ℕ × List ℕ × ℕ)
unfolding str_append
strcpy_feature feature name mask text left = elim (has_flag mask feature) [
  | false ↦ some (mask, text, left)
  | true ↦ elim (str_append text left name) [
    | none ↦ none
    | some r ↦ some (bit_xor mask feature, r.0, r.1)
  ]
]

unfoldable pub tell : List (ℕ × List ℕ × Bool) → ℕ → List ℕ → ℕ → Outcome Told
unfolding strcpy_feature finish
tell [] mask text left = finish true text
tell (f ∷ fs) mask text left = elim (strcpy_feature f.0 f.1 mask text left) [
  | none ↦ done too_long
  | some r ↦ elim (r.0 == 0) [ true ↦ finish f.2 r.1 | false ↦ tell fs r.0 r.1 r.2 ]
]

unfoldable pub cpu_features_to_str : ℕ → ℕ → Outcome Told
unfolding tell
cpu_features_to_str mask buff_sz =
    if mask == 0 then done (told (0 ∷ [])) else tell names mask [] buff_sz
