-- ===== src/Args/Numbers.antt =====
-- What an accepted number of the command line is.
use mdb.Base.{ℕ, ◌%◌, ◌^◌, ◌≤◌, ◌<◌, ◌≡◌, refl, ◌⊎◌, inl, inr, Bool-cases, [], ◌∷◌, arith, ◌==◌}
use mdb.Args.Libc.{Str, strtol, strcmp_eq}
use mdb.Args.{
  Ran, ok, exits, overflow, timeout, ◌>>=◌, parse_int, parse_int_c, parse_block_size, parse_threads,
  in_range, block_height, uint16_max, int_max, minus_one, auto_word,
}

-- A result of two parsers in turn has one of the first.
pub >>=-ok {ℓ κ} :
    {A : Type ℓ} {B : Type κ} (m : Ran A) (f : A → Ran B) {b : B}
    → (m >>= f) ≡ ok b
    → (a : A) × (m ≡ ok a) × (f a ≡ ok b)
>>=-ok (ok a) f e = (a, refl, e)
>>=-ok exits f e = cc
>>=-ok overflow f e = cc
>>=-ok timeout f e = cc

in_range-ok :
    (i lo hi : ℕ) {n : ℕ}
    → i < 2 ^ 32
    → lo ≤ hi
    → hi ≤ int_max
    → in_range i lo hi ≡ ok n
    → (lo ≤ n) × (n ≤ hi) × (i ≡ n)
unfolding in_range
in_range-ok i lo hi w l h e = ground arith

-- A number that `parse_int` accepts is in the range asked for, and is the number that `strtol` has
-- read from the whole text, cut to the low 32 bits.
pub parse_int-ok :
    (val : Str) (lo hi : ℕ) {n : ℕ}
    → lo ≤ hi
    → hi ≤ int_max
    → parse_int val lo hi ≡ ok n
    → (lo ≤ n) × (n ≤ hi) × ((strtol val).rest ≡ []) × ((strtol val).value % 2 ^ 32 ≡ n)
unfolding parse_int
parse_int-ok val lo hi {n} l h e =
    ground (arith, in_range-ok ((strtol val).value % 2 ^ 32) lo hi {n = n} (omega arith) l h)

parse_int_c-ok :
    (val : Str) (lo hi : ℕ) {p : ℕ × Str}
    → lo ≤ hi
    → hi ≤ int_max
    → parse_int_c val lo hi ≡ ok p
    → (lo ≤ p.0) × (p.0 ≤ hi)
unfolding parse_int_c
parse_int_c-ok val lo hi {p} l h e = elim (Bool-cases (strtol val).range_error) [
  | inl bad ↦ absurd (ground (arith, e, bad))
  | inr good ↦
      (let q =
          >>=-ok (in_range ((strtol val).value % 2 ^ 32) lo hi) (λ i. ok (i, (strtol val).rest))
            (rw good at e) in
        let r = in_range-ok _ lo hi {n = q.0} (omega arith) l h q.1 in ground (arith, r, q.2))
]

-- Both sides of an accepted block size are between 8 and 65535.
pub parse_block_size-ok :
    (val : Str) {b : ℕ × ℕ}
    → parse_block_size val ≡ ok b
    → (8 ≤ b.0) × (b.0 ≤ uint16_max) × (8 ≤ b.1) × (b.1 ≤ uint16_max)
unfolding parse_block_size block_height
parse_block_size-ok val {b} e =
    let p = >>=-ok (parse_int_c val 8 uint16_max) block_height e in
    let x = parse_int_c-ok val 8 uint16_max {p = p.0} (omega arith) (omega arith) p.1 in
    height-ok p.0 x p.2
  where
    height-ok :
        (p : ℕ × Str)
        → (8 ≤ p.0) × (p.0 ≤ uint16_max)
        → block_height p ≡ ok b
        → (8 ≤ b.0) × (b.0 ≤ uint16_max) × (8 ≤ b.1) × (b.1 ≤ uint16_max)
    height-ok (x, []) k e = ground (arith, k)
    height-ok (x, c ∷ cs) k e = elim (Bool-cases (c == 120)) [
      | inr other ↦ absurd (ground (arith, e, other))
      | inl cross ↦
          (let q = >>=-ok (parse_int cs 8 uint16_max) (λ y. ok (x, y)) (rw cross at e) in
            let r = parse_int-ok cs 8 uint16_max {n = q.0} (omega arith) (omega arith) q.1 in
            ground (arith, k, r, q.2))
    ]

-- A number of threads is a positive `int`, or -1 for as many as the hardware has.
pub parse_threads-ok :
    (arg : Str) {n : ℕ} → parse_threads arg ≡ ok n → (n ≡ minus_one) ⊎ ((1 ≤ n) × (n ≤ int_max))
unfolding parse_threads
parse_threads-ok arg {n} e = elim (Bool-cases (strcmp_eq arg auto_word)) [
  | inl auto ↦ inl (ground (arith, e, auto))
  | inr number ↦
      (let r = parse_int-ok arg 1 int_max {n = n} (omega arith) (omega arith) (rw number at e) in
        inr (r.0, r.1))
]
