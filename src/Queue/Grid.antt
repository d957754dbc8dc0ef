-- ===== src/Queue/Grid.antt =====
-- What `rsched_split_task` is meant to produce: a rectangle cut into a grid of blocks, every
-- point of it in exactly one of them.
use mdb.Base.{
  ℕ, zero, suc, ◌+◌, ◌-◌, ◌*◌, ◌/◌, min, ◌≤◌, ◌<◌, ◌≡◌, refl, ap, ap₂, sym, dec_lt, ◌∙◌, Bool, ◌&&◌,
  List, [], ◌∷◌, ◌++◌, map, arith, ltb, leb, length, length-append, length-map, one_if,
}
use mdb.Queue.{Task}

-- A half-open interval, by its ends.
pub record Span : Type 0 where
  pub from : ℕ
  pub to : ℕ

abbrev pub ceil_div : ℕ → ℕ → ℕ
ceil_div n g = (n + g - 1) / g

-- `n` intervals of size `g` from `x` on, the last cut off at `x1`.
unfoldable pub spans : ℕ → ℕ → ℕ → ℕ → List Span
spans zero x x1 g = []
spans (suc n) x x1 g = record { from = x; to = min (x + g) x1 } ∷ spans n (x + g) x1 g

abbrev pub block : Span → Span → Task
block r c = record { x0 = c.from; x1 = c.to; y0 = r.from; y1 = r.to }

-- The blocks of one row, and those of all rows.
abbrev pub row_blocks : Span → List Span → List Task
row_blocks r cs = map (block r) cs

unfoldable pub grid : List Span → List Span → List Task
grid [] cs = []
grid (r ∷ rs) cs = row_blocks r cs ++ grid rs cs

-- The grid of x0 ≤ x < x1, y0 ≤ y < y1 in blocks of gx by gy.
unfoldable pub blocks : ℕ → ℕ → ℕ → ℕ → ℕ → ℕ → List Task
blocks x0 x1 y0 y1 gx gy =
    grid (spans (ceil_div (y1 - y0) gy) y0 y1 gy) (spans (ceil_div (x1 - x0) gx) x0 x1 gx)

abbrev pub within : ℕ → ℕ → ℕ → Bool
within lo hi v = leb lo v && ltb v hi

-- How many of the blocks hold the point (x, y).
unfoldable pub hits : ℕ → ℕ → List Task → ℕ
hits x y [] = 0
hits x y (t ∷ ts) = one_if (within t.x0 t.x1 x && within t.y0 t.y1 y) + hits x y ts

span_hits : ℕ → List Span → ℕ
span_hits v [] = 0
span_hits v (s ∷ ss) = one_if (within s.from s.to v) + span_hits v ss

hits-append : (x y : ℕ) (ts us : List Task) → hits x y (ts ++ us) ≡ hits x y ts + hits x y us
unfolding hits
hits-append x y [] us = omega arith
hits-append x y (t ∷ ts) us = omega (arith, hits-append x y ts us)

hits-row :
    (x y : ℕ) (r : Span) (cs : List Span)
    → hits x y (row_blocks r cs) ≡ one_if (within r.from r.to y) * span_hits x cs
unfolding hits span_hits
hits-row x y r [] = omega arith
hits-row x y r (c ∷ cs) = ground (arith, hits-row x y r cs)

hits-grid : (x y : ℕ) (rs cs : List Span) → hits x y (grid rs cs) ≡ span_hits y rs * span_hits x cs
unfolding hits grid span_hits
hits-grid x y [] cs = omega arith
hits-grid x y (r ∷ rs) cs =
    hits-append x y (row_blocks r cs) (grid rs cs)
    ∙ ap₂ ◌+◌ (hits-row x y r cs) (hits-grid x y rs cs)
    ∙ grind arith

-- The intervals cover each number up to their common end once, and no other.
span_hits-spans :
    (n x x1 g v : ℕ)
    → 0 < g
    → x1 ≤ x + n * g
    → span_hits v (spans n x x1 g) ≡ one_if (within x x1 v)
unfolding spans span_hits
span_hits-spans zero x x1 g v h e = ground arith
span_hits-spans (suc n) x x1 g v h e =
    ground (arith, span_hits-spans n (x + g) x1 g v h (grind arith))

pub le-ceil_div : (n g : ℕ) → 0 < g → n ≤ ceil_div n g * g
le-ceil_div n g h = grind arith

-- One block less is left when the first has been cut off.
pub ceil_div_step : (n g : ℕ) → 0 < g → 0 < n → ceil_div n g ≡ suc (ceil_div (n - g) g)
ceil_div_step n g h p = grind arith

ceil_div_zero : (g : ℕ) → 0 < g → ceil_div 0 g ≡ 0
ceil_div_zero g h = grind arith

pub spans_done : (x x1 g : ℕ) → 0 < g → x1 ≤ x → spans (ceil_div (x1 - x) g) x x1 g ≡ []
unfolding spans
spans_done x x1 g h e =
    let zero_left : x1 - x ≡ 0 = omega arith in rw (zero_left, ceil_div_zero g h)

-- The first interval, and those of what is left behind it.
pub spans_more :
    (x x1 g : ℕ)
    → 0 < g
    → x < x1
    → let x11 = min (x + g) x1 in
      spans (ceil_div (x1 - x) g) x x1 g
      ≡ record { from = x; to = x11 } ∷ spans (ceil_div (x1 - x11) g) x11 x1 g
unfolding spans
spans_more x x1 g h e =
    rw (ceil_div_step (x1 - x) g h (omega arith))
      (ap (λ l. record { from = x; to = min (x + g) x1 } ∷ l) rest)
  where
    rest :
        spans (ceil_div (x1 - x - g) g) (x + g) x1 g
        ≡ spans (ceil_div (x1 - min (x + g) x1) g) (min (x + g) x1) x1 g
    rest = elim (dec_lt x1 (x + g)) [
      | no inside ↦
          (let m : min (x + g) x1 ≡ x + g = omega arith in
            let d : x1 - x - g ≡ x1 - (x + g) = omega arith in rw (m, d))
      | yes last ↦
          (let m : min (x + g) x1 ≡ x1 = omega arith in
            let d : x1 - x - g ≡ x1 - (x + g) = omega arith in
            rw (m, d)
              (spans_done (x + g) x1 g h (omega arith) ∙ sym (spans_done x1 x1 g h (omega arith))))
    ]

pub hits-blocks :
    (x0 x1 y0 y1 gx gy x y : ℕ)
    → 0 < gx
    → 0 < gy
    → hits x y (blocks x0 x1 y0 y1 gx gy) ≡ one_if (within x0 x1 x && within y0 y1 y)
unfolding blocks
hits-blocks x0 x1 y0 y1 gx gy x y hx hy =
    hits-grid x y _ _
    ∙ ap₂ ◌*◌ (span_hits-spans _ y0 y1 gy y hy (omega (arith, le-ceil_div (y1 - y0) gy hy)))
        (span_hits-spans _ x0 x1 gx x hx (omega (arith, le-ceil_div (x1 - x0) gx hx)))
    ∙ ground arith

length-spans : (n x x1 g : ℕ) → length (spans n x x1 g) ≡ n
unfolding spans
length-spans zero x x1 g = refl
length-spans (suc n) x x1 g = ap suc (length-spans n (x + g) x1 g)

length-grid : (rs cs : List Span) → length (grid rs cs) ≡ length rs * length cs
unfolding grid
length-grid [] cs = omega arith
length-grid (r ∷ rs) cs =
    length-append (row_blocks r cs) (grid rs cs)
    ∙ ap₂ ◌+◌ (length-map (block r) cs) (length-grid rs cs)
    ∙ grind arith

pub length-blocks :
    (x0 x1 y0 y1 gx gy : ℕ)
    → length (blocks x0 x1 y0 y1 gx gy) ≡ ceil_div (y1 - y0) gy * ceil_div (x1 - x0) gx
unfolding blocks
length-blocks x0 x1 y0 y1 gx gy =
    length-grid _ _ ∙ ap₂ ◌*◌ (length-spans _ y0 y1 gy) (length-spans _ x0 x1 gx)
