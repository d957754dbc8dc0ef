-- ===== src/View/Metadata.antt =====
-- kernel_modules/kernel_module.h and `mdb_kernel_metadata_query` of mdb_kernel_common.c: the texts
-- that a kernel tells of itself. A text is a list of character codes, and a buffer one of bytes.
use mathlib.Core.Bool.{false≢true}
use mdb.Base.{
  ℕ, zero, suc, Bool, true, false, ◌∙◌, ◌+◌, ◌≤◌, ◌<◌, ◌≡◌, ◌⊎◌, inl, inr, dec_le, refl, ap, List,
  [], ◌∷◌, ◌++◌, leb, ◌==◌, length, drop, if◌then◌else◌, arith, Outcome, done, fault, ◌>>=◌, le→leb,
  lt→leb,
}

pub data QueryStatus : Type 0 where
  ok buffer_overflow no_param : QueryStatus

-- The global variables of a kernel.
pub record Meta : Type 0 where
  pub name : List ℕ
  pub ver_maj : List ℕ
  pub ver_min : List ℕ

-- The buffer behind `memcpy`, with a fault where it is too short.
unfoldable pub memcpy : List ℕ → List ℕ → Outcome (List ℕ)
memcpy dst [] = done dst
memcpy [] (_ ∷ _) = fault
memcpy (_ ∷ dst) (c ∷ src) = memcpy dst src >>= λ rest. done (c ∷ rest)

abbrev copied : List ℕ → Outcome (QueryStatus × List ℕ)
copied dst = done (ok, dst)

unfoldable pub metadata_copy : List ℕ → List ℕ → ℕ → Outcome (QueryStatus × List ℕ)
metadata_copy meta dst dst_size =
    if leb (length meta + 1) dst_size
    then (memcpy dst (meta ++ (0 ∷ [])) >>= copied)
    else done (buffer_overflow, dst)

unfoldable pub metadata_query : Meta → ℕ → List ℕ → ℕ → Outcome (QueryStatus × List ℕ)
unfolding metadata_copy
metadata_query m query buff size =
    if query == 1
    then metadata_copy m.name buff size
    else if query == 2
    then metadata_copy m.ver_maj buff size
    else if query == 3
    then metadata_copy m.ver_min buff size
    else done (no_param, buff)

memcpy_text :
    (dst meta : List ℕ)
    → length meta < length dst
    → memcpy dst (meta ++ (0 ∷ [])) ≡ done (meta ++ (0 ∷ drop (suc (length meta)) dst))
unfolding memcpy
memcpy_text [] meta h = absurd (omega (arith, h))
memcpy_text (d ∷ dst) [] h = refl
memcpy_text (d ∷ dst) (c ∷ meta) h =
    ap (λ o. o >>= λ rest. done (c ∷ rest)) (memcpy_text dst meta (omega (arith, h)))

-- For a buffer of at least the size that is told: a text that fits stands at its start, with its
-- end, and the rest is as before; of any other nothing is written.
metadata_copy_lem :
    (meta dst : List ℕ) (size : ℕ)
    → size ≤ length dst
    → ((length meta < size)
        × (metadata_copy meta dst size ≡ done (ok, meta ++ (0 ∷ drop (suc (length meta)) dst))))
      ⊎ ((size ≤ length meta) × (metadata_copy meta dst size ≡ done (buffer_overflow, dst)))
unfolding metadata_copy
metadata_copy_lem meta dst size h = elim (dec_le (length meta + 1) size) [
  | yes fits ↦ inl (
    omega (arith, fits),
    ap (λ b. if b then (memcpy dst (meta ++ (0 ∷ [])) >>= copied) else done (buffer_overflow, dst))
          (le→leb (length meta + 1) size fits)
        ∙ ap (λ o. o >>= copied) (memcpy_text dst meta (omega (arith, h, fits))),
  )
  | no big ↦ inr (
    omega (arith, big),
    ap (λ b. if b then (memcpy dst (meta ++ (0 ∷ [])) >>= copied) else done (buffer_overflow, dst))
        (lt→leb (length meta + 1) size (omega (arith, big))),
  )
]

-- The text at the start of a buffer, up to its end.
abbrev pub c_string : List ℕ → List ℕ
c_string [] = []
c_string (zero ∷ _) = []
c_string (suc c ∷ buff) = suc c ∷ c_string buff

abbrev pub is_text : List ℕ → Bool
is_text [] = true
is_text (zero ∷ _) = false
is_text (suc c ∷ text) = is_text text

c_string-append : (text rest : List ℕ) → is_text text ≡ true → c_string (text ++ (0 ∷ rest)) ≡ text
c_string-append [] rest h = refl
c_string-append (zero ∷ text) rest h = absurd (false≢true h)
c_string-append (suc c ∷ text) rest h = ap (λ xs. suc c ∷ xs) (c_string-append text rest h)

-- The queries that a kernel answers, with the texts they ask for.
pub data Asks (m : Meta) : ℕ → List ℕ → Type 0 where
  asks_name : Asks m 1 m.name
  asks_ver_maj : Asks m 2 m.ver_maj
  asks_ver_min : Asks m 3 m.ver_min

-- A reply from which a text is read.
abbrev pub Tells : List ℕ → Outcome (QueryStatus × List ℕ) → Type 0
Tells text o = (buff : List ℕ) × (o ≡ done (ok, buff)) × (c_string buff ≡ text)

metadata_copy-Tells :
    (meta dst : List ℕ) (size : ℕ)
    → is_text meta ≡ true
    → size ≤ length dst
    → length meta < size
    → Tells meta (metadata_copy meta dst size)
metadata_copy-Tells meta dst size proper room fits = elim (metadata_copy_lem meta dst size room) [
  | inl r ↦ (meta ++ (0 ∷ drop (suc (length meta)) dst), r.1, c_string-append meta _ proper)
  | inr r ↦ absurd (omega (arith, fits, r.0))
]

metadata_query-Asks :
    {m : Meta} {query : ℕ} {text : List ℕ}
    → Asks m query text
    → (buff : List ℕ) (size : ℕ) → metadata_query m query buff size ≡ metadata_copy text buff size
unfolding metadata_query
metadata_query-Asks asks_name buff size = refl
metadata_query-Asks asks_ver_maj buff size = refl
metadata_query-Asks asks_ver_min buff size = refl

-- A text that a kernel is asked for, that has no zero in it and that fits into the buffer with its
-- end, is read from the buffer afterwards.
metadata_query-c_string :
    {m : Meta} {query : ℕ} {text : List ℕ}
    → Asks m query text
    → is_text text ≡ true
    → (buff : List ℕ) (size : ℕ) → size ≤ length buff
    → length text < size
    → Tells text (metadata_query m query buff size)
metadata_query-c_string {m} {query} {text} asks proper buff size room fits =
    let r = metadata_copy-Tells text buff size proper room fits in
    (r.0, metadata_query-Asks asks buff size ∙ r.1, r.2)
