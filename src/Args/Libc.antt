-- ===== src/Args/Libc.antt =====
-- What tools/args_parser.c uses of the C library: `strcmp`, `strchr`, `strncmp`, `strtol` and
-- `strtoul` in base 10, in the C locale, with a `long` of 64 bits.
use mdb.Base.{
  ℕ, ◌+◌, ◌-◌, ◌*◌, ◌^◌, ◌%◌, Bool, true, false, ◌&&◌, ◌||◌, Option, none, some, List, [], ◌∷◌, ltb,
  leb, ◌==◌, if◌then◌else◌,
}

abbrev pub Str : Type 0
Str = List ℕ

-- `strcmp(s, t) == 0`
unfoldable pub strcmp_eq : Str → Str → Bool
strcmp_eq [] [] = true
strcmp_eq [] (d ∷ ds) = false
strcmp_eq (c ∷ cs) [] = false
strcmp_eq (c ∷ cs) (d ∷ ds) = if c == d then strcmp_eq cs ds else false

-- `strncmp(opt, arg, strlen(opt)) == 0`, with what stands behind in `arg`.
unfoldable pub strip : Str → Str → Option Str
strip [] t = some t
strip (c ∷ cs) [] = none
strip (c ∷ cs) (d ∷ ds) = if c == d then strip cs ds else none

-- `strchr`, as the text before the character and the text behind it.
unfoldable pub split_at : ℕ → Str → Option (Str × Str)
split_at c [] = none
split_at c (d ∷ ds) =
    let rest = split_at c ds in
    if d == c then some ([], ds) else elim rest [ none ↦ none | some (a, b) ↦ some (d ∷ a, b) ]

abbrev is_space : ℕ → Bool
is_space c = (c == 32) || (leb 9 c && leb c 13)

abbrev pub is_digit : ℕ → Bool
is_digit c = leb 48 c && leb c 57

skip_space : Str → Str
skip_space [] = []
skip_space (c ∷ cs) = if is_space c then skip_space cs else c ∷ cs

-- An optional sign: 45 is '-', 43 is '+'.
sign_of : Str → Bool × Str
sign_of [] = (false, [])
sign_of (c ∷ cs) = if c == 45 then (true, cs) else if c == 43 then (false, cs) else (false, c ∷ cs)

unfoldable pub scan_digits : ℕ → Str → ℕ × Str
scan_digits n [] = (n, [])
scan_digits n (c ∷ cs) = if is_digit c then scan_digits (n * 10 + (c - 48)) cs else (n, c ∷ cs)

starts_digit : Str → Bool
starts_digit [] = false
starts_digit (c ∷ cs) = is_digit c

-- The value as a bit pattern of 64 bits, the text behind the number, and whether `errno` is set.
pub record Scan : Type 0 where
  pub value : ℕ
  pub rest : Str
  pub range_error : Bool

long_value : Bool → ℕ × Str → Scan
long_value true (n, rest) =
    if ltb (2 ^ 63) n
    then record { value = 2 ^ 63; rest = rest; range_error = true }
    else record { value = (2 ^ 64 - n) % 2 ^ 64; rest = rest; range_error = false }
long_value false (n, rest) =
    if leb (2 ^ 63) n
    then record { value = 2 ^ 63 - 1; rest = rest; range_error = true }
    else record { value = n; rest = rest; range_error = false }

ulong_value : Bool → ℕ × Str → Scan
ulong_value negative (n, rest) =
    if leb (2 ^ 64) n
    then record { value = 2 ^ 64 - 1; rest = rest; range_error = true }
    else record {
      value = if negative then (2 ^ 64 - n) % 2 ^ 64 else n;
      rest = rest;
      range_error = false;
    }

-- Without a digit the value is 0, and the text is handed back whole.
scan : (Bool → ℕ × Str → Scan) → Str → Scan
unfolding skip_space sign_of starts_digit scan_digits
scan value s =
    let (negative, t) = sign_of (skip_space s) in
    if starts_digit t
    then value negative (scan_digits 0 t)
    else record { value = 0; rest = s; range_error = false }

unfoldable pub strtol : Str → Scan
unfolding scan long_value
strtol s = scan long_value s

unfoldable pub strtoul : Str → Scan
unfolding scan ulong_value
strtoul s = scan ulong_value s
