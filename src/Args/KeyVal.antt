-- ===== src/Args/KeyVal.antt =====
-- `parse_sub_key_val` and the loop of `parse_hist_opts`: what is cut out of the text, that the loop
-- ends, and where a buffer is overrun.
use mdb.Base.{ℕ, ◌≤◌, ◌<◌, ◌≡◌, ◌≢◌, refl, Option, none, some, [], ◌∷◌, ◌++◌, arith, length, lt→ltb}
use mdb.Args.Libc.{Str, split_at}
use mdb.Args.{ok}
use mdb.Args.Profile.{copied, value_of, key_val_of, parse_sub_key_val}

-- The character stands nowhere in the text.
abbrev pub IsFree : ℕ → Str → Type 0
IsFree c [] = Unit
IsFree c (d ∷ ds) = (d ≢ c) × IsFree c ds

split_at-append : (c : ℕ) (s t : Str) → IsFree c s → split_at c (s ++ (c ∷ t)) ≡ some (s, t)
unfolding split_at
split_at-append c [] t f = ground arith
split_at-append c (d ∷ ds) t f = let ih = split_at-append c ds t f.1 in ground (arith, ih, f.0)

split_at-none : (c : ℕ) (s : Str) → IsFree c s → split_at c s ≡ none
unfolding split_at
split_at-none c [] f = refl
split_at-none c (d ∷ ds) f = let ih = split_at-none c ds f.1 in ground (arith, ih, f.0)

-- A key without `=` and a value without a comma, of fewer than 64 characters each, are cut out as
-- they stand, and the text behind the comma is what is left.
pub parse_sub_key_val-append :
    (key val rest : Str)
    → IsFree 61 key
    → IsFree 44 val
    → length key < 64
    → length val < 64
    → parse_sub_key_val (key ++ (61 ∷ (val ++ (44 ∷ rest)))) ≡ ok (key, val, rest)
unfolding parse_sub_key_val key_val_of copied value_of
parse_sub_key_val-append key val rest fk fv k v =
    rw
      (
        split_at-append 61 key (val ++ (44 ∷ rest)) fk,
        split_at-append 44 val rest fv,
        lt→ltb (length key) 64 k,
        lt→ltb (length val) 64 v,
      )
      refl

-- What is left behind a character is shorter.
abbrev IsShort : ℕ → Option (Str × Str) → Type 0
IsShort n none = Unit
IsShort n (some p) = length p.1 < n

split_at-IsShort : (c : ℕ) (s : Str) → IsShort (length s) (split_at c s)
unfolding split_at
split_at-IsShort c [] = tt
split_at-IsShort c (d ∷ ds) = let ih = split_at-IsShort c ds in ground (arith, ih)

split_at-shorter : (c : ℕ) (s : Str) {p : Str × Str} → split_at c s ≡ some p → length p.1 < length s
split_at-shorter c s e = rw e at (split_at-IsShort c s)

value_of-shorter :
    (text : Str) (o : Option (Str × Str))
    → split_at 44 text ≡ o
    → length (value_of text o).1 ≤ length text
unfolding value_of
value_of-shorter text none e = omega arith
value_of-shorter text (some p) e = omega (arith, split_at-shorter 44 text e)

copied-rest : (key : Str) (p : Str × Str) {r : Str × Str × Str} → copied key p ≡ ok r → r.2 ≡ p.1
unfolding copied
copied-rest key p e = ground (arith, e)

pub parse_sub_key_val-shorter :
    (arg : Str) {r : Str × Str × Str} → parse_sub_key_val arg ≡ ok r → length r.2 < length arg
unfolding parse_sub_key_val
parse_sub_key_val-shorter arg {r} e = from_split (split_at 61 arg) refl e
  where
    from_split :
        (o : Option (Str × Str))
        → split_at 61 arg ≡ o
        → key_val_of o ≡ ok r
        → length r.2 < length arg
    from_split none q e = cc
    from_split (some (key, text)) q e =
        rw (copied-rest key (value_of text (split_at 44 text)) e)
          (omega (arith, split_at-shorter 61 arg q, value_of-shorter text (split_at 44 text) refl))
