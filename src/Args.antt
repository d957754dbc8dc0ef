-- ===== src/Args.antt =====
-- tools/args_parser.c: the numbers and words of the command line. A string is the list of its
-- character codes. What the functions use of the C library is in `Libc`.
pub mod Libc
pub mod Profile
pub mod Options
pub mod Ensures
pub mod Numbers
pub mod KeyVal
pub mod Ending
pub mod Bounds
pub mod Geometry
use mdb.Base.{
  ℕ, ◌+◌, ◌-◌, ◌^◌, ◌%◌, Bool, true, false, not, ◌||◌, Option, none, some, List, [], ◌∷◌, ◌==◌,
  if◌then◌else◌, ltb,
}
use mdb.Args.Libc.{Str, Scan, strtol, strcmp_eq}

-- What a parser does: it returns, ends the program by `exit(EXIT_FAILURE)`, writes outside a
-- buffer, or spends its fuel.
pub data Ran {ℓ} (A : Type ℓ) : Type ℓ where
  ok : A → Ran A
  exits : Ran A
  overflow : Ran A
  timeout : Ran A

infixl 5 ◌>>=◌
abbrev pub ◌>>=◌ {ℓ κ} : {A : Type ℓ} {B : Type κ} → Ran A → (A → Ran B) → Ran B
ok a >>= f = f a
exits >>= f = exits
overflow >>= f = overflow
timeout >>= f = timeout

abbrev pub uint16_max : ℕ
uint16_max = 65535

abbrev pub int_max : ℕ
int_max = 2 ^ 31 - 1

-- `a < b` on the bit patterns of two `int`.
abbrev pub lt_int : ℕ → ℕ → Bool
lt_int a b = ltb ((a + 2 ^ 31) % 2 ^ 32) ((b + 2 ^ 31) % 2 ^ 32)

-- The range test of `parse_int` and `parse_int_c`.
in_range : ℕ → ℕ → ℕ → Ran ℕ
in_range i min_allowed max_allowed =
    if lt_int i min_allowed || lt_int max_allowed i then exits else ok i

-- The text after the number must be empty, `errno` clear, and the value, cut to an `int`, in range.
unfoldable pub parse_int : Str → ℕ → ℕ → Ran ℕ
unfolding in_range
parse_int val min_allowed max_allowed =
    let s = strtol val in
    elim s.rest [
      | c ∷ cs ↦ exits
      | [] ↦ if s.range_error then exits else in_range (s.value % 2 ^ 32) min_allowed max_allowed
    ]

-- The same with the text after the number handed back.
unfoldable pub parse_int_c : Str → ℕ → ℕ → Ran (ℕ × Str)
unfolding in_range
parse_int_c val min_allowed max_allowed =
    let s = strtol val in
    if s.range_error
    then exits
    else in_range (s.value % 2 ^ 32) min_allowed max_allowed >>= λ i. ok (i, s.rest)

-- 120 is 'x'.
block_height : ℕ × Str → Ran (ℕ × ℕ)
unfolding parse_int
block_height (x, []) = ok (x, x)
block_height (x, c ∷ cs) =
    if c == 120 then (parse_int cs 8 uint16_max >>= λ y. ok (x, y)) else exits

unfoldable pub parse_block_size : Str → Ran (ℕ × ℕ)
unfolding block_height parse_int_c
parse_block_size val = parse_int_c val 8 uint16_max >>= block_height

abbrev pub auto_word : Str
auto_word = 97 ∷ 117 ∷ 116 ∷ 111 ∷ []

-- -1 as an `int`
abbrev pub minus_one : ℕ
minus_one = 2 ^ 32 - 1

unfoldable pub parse_threads : Str → Ran ℕ
unfolding parse_int
parse_threads arg = if strcmp_eq arg auto_word then ok minus_one else parse_int arg 1 int_max

pub data Mode : Type 0 where
  oneshot benchmark render : Mode

abbrev pub oneshot_word : Str
oneshot_word = 111 ∷ 110 ∷ 101 ∷ 115 ∷ 104 ∷ 111 ∷ 116 ∷ []

abbrev pub benchmark_word : Str
benchmark_word = 98 ∷ 101 ∷ 110 ∷ 99 ∷ 104 ∷ 109 ∷ 97 ∷ 114 ∷ 107 ∷ []

abbrev pub render_word : Str
render_word = 114 ∷ 101 ∷ 110 ∷ 100 ∷ 101 ∷ 114 ∷ []

unfoldable pub parse_mode : Str → Ran Mode
parse_mode arg =
    if strcmp_eq arg oneshot_word
    then ok oneshot
    else if strcmp_eq arg benchmark_word
    then ok benchmark
    else if strcmp_eq arg render_word
    then ok render
    else exits

abbrev pub on_word : Str
on_word = 111 ∷ 110 ∷ []

abbrev pub off_word : Str
off_word = 111 ∷ 102 ∷ 102 ∷ []

unfoldable pub parse_on_off : Str → Ran Bool
parse_on_off arg =
    if strcmp_eq arg on_word then ok true else if strcmp_eq arg off_word then ok false else exits
