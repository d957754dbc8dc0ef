-- ===== src/Tasks/Blocks.antt =====
-- The corners of the blocks that the split of an area makes.
use mdb.Base.{
  ℕ, zero, suc, ◌+◌, ◌-◌, ◌*◌, ◌≤◌, ◌<◌, ◌≡◌, List, [], ◌∷◌, ◌++◌, some, get_elem?, length, refl,
  arith,
}
use mdb.Queue.{Task}
use mdb.Queue.Grid.{Span, spans, ceil_div, grid, row_blocks, blocks}

-- The corners are in order, and not beyond (w, h).
pub record Fits (w h : ℕ) (t : Task) : Type 0 where
  pub columns : t.x0 ≤ t.x1
  pub right : t.x1 ≤ w
  pub rows : t.y0 ≤ t.y1
  pub bottom : t.y1 ≤ h

abbrev pub FitIn : ℕ → ℕ → List Task → Type 0
FitIn w h [] = Unit
FitIn w h (t ∷ ts) = Fits w h t × FitIn w h ts

abbrev SpansFit : ℕ → List Span → Type 0
SpansFit w [] = Unit
SpansFit w (s ∷ ss) = (s.from ≤ s.to) × (s.to ≤ w) × SpansFit w ss

FitIn-append : (w h : ℕ) (ts us : List Task) → FitIn w h ts → FitIn w h us → FitIn w h (ts ++ us)
FitIn-append w h [] us p q = q
FitIn-append w h (t ∷ ts) us p q = (p.0, FitIn-append w h ts us p.1 q)

spans-Fit : (n x x1 g : ℕ) → x + n * g ≤ x1 + g → SpansFit x1 (spans n x x1 g)
unfolding spans
spans-Fit zero x x1 g h = tt
spans-Fit (suc n) x x1 g h =
    let tail : x + g + n * g ≤ x1 + g = grind arith in
    let head : x ≤ x1 = grind arith in (omega arith, omega arith, spans-Fit n (x + g) x1 g tail)

row-FitIn :
    (w h : ℕ) (r : Span) (cs : List Span)
    → r.from ≤ r.to
    → r.to ≤ h
    → SpansFit w cs
    → FitIn w h (row_blocks r cs)
row-FitIn w h r [] o p q = tt
row-FitIn w h r (c ∷ cs) o p q =
    (record { columns = q.0; right = q.1; rows = o; bottom = p }, row-FitIn w h r cs o p q.2)

grid-FitIn : (w h : ℕ) (rs cs : List Span) → SpansFit h rs → SpansFit w cs → FitIn w h (grid rs cs)
unfolding grid
grid-FitIn w h [] cs p q = tt
grid-FitIn w h (r ∷ rs) cs p q =
    FitIn-append w h (row_blocks r cs) (grid rs cs) (row-FitIn w h r cs p.0 p.1 q)
      (grid-FitIn w h rs cs p.2 q)

ceil_div-le : (n g : ℕ) → 0 < g → ceil_div n g * g ≤ n + g
ceil_div-le n g h = grind arith

pub blocks-FitIn : (w h gx gy : ℕ) → 0 < gx → 0 < gy → FitIn w h (blocks 0 w 0 h gx gy)
unfolding blocks
blocks-FitIn w h gx gy px py =
    grid-FitIn w h _ _ (spans-Fit _ 0 h gy (omega (arith, ceil_div-le (h - 0) gy py)))
      (spans-Fit _ 0 w gx (omega (arith, ceil_div-le (w - 0) gx px)))

pub get_elem?-Fits :
    (w h : ℕ) (ts : List Task) (k : ℕ)
    → FitIn w h ts
    → k < length ts
    → (t : Task) × (get_elem? ts k ≡ some t) × Fits w h t
get_elem?-Fits w h [] k f less = absurd (omega arith)
get_elem?-Fits w h (u ∷ ts) zero f less = (u, refl, f.0)
get_elem?-Fits w h (u ∷ ts) (suc k) f less = get_elem?-Fits w h ts k f.1 (omega arith)
