-- ===== src/Surface/Pixels.antt =====
-- What `surface_set_pixels` writes, and that it stays inside the buffer.
use mdb.Base.{
  ℕ, zero, suc, ◌+◌, ◌-◌, ◌*◌, ◌%◌, ◌^◌, ◌≤◌, ◌<◌, ◌≡◌, refl, ap, ◌∙◌, ◌&&◌, Option, some, List,
  ltb, leb, ◌==◌, if◌then◌else◌, arith, length, length-set, get_elem?, get_elem?-some,
  get_elem?-set_self, get_elem?-set_ne, set, lt→ltb, le→ltb, le→leb, lt→leb, ◌>>=◌, dec_lt, Outcome,
  done, add32, mul32,
}
use mdb.Surface.{Surface, put, put_row, set_pixels}

pub index-lt : (w h x y : ℕ) → x < w → y < h → y * w + x < w * h
index-lt w h x y p q = grind arith

row-lt : (w x y y' : ℕ) → x < w → y < y' → y * w + x < y' * w
row-lt w x y y' p q = grind arith

row-le : (w h y : ℕ) → y < h → y * w ≤ w * h
row-le w h y p = grind arith

-- Two pixels of a row-major buffer share a cell only if they are one.
index-injective : (w x y x' y' : ℕ) → x < w → x' < w → y * w + x ≡ y' * w + x' → (x ≡ x') × (y ≡ y')
index-injective w x y x' y' p q e = elim (dec_lt y y') [
  | yes below ↦ absurd (omega (arith, row-lt w x y y' p below))
  | no not_below ↦ elim (dec_lt y' y) [
    | yes above ↦ absurd (omega (arith, row-lt w x' y' y q above))
    | no not_above ↦ let same : y ≡ y' = omega arith in (omega (arith, ap (λ t. t * w) same), same)
  ]
]

module _ {F : Type 0} where
  -- What a row of `n` pixels from `x` on leaves at the pixel (px, py).
  abbrev pub row_pixel : List F → List F → ℕ → ℕ → ℕ → ℕ → ℕ → ℕ → Option F
  row_pixel cells pix w x y n px py =
      if (py == y) && (leb x px && ltb px (x + n))
      then get_elem? pix (px - x)
      else get_elem? cells (py * w + px)

  -- A buffer after a row has been written from its `k`-th pixel on.
  pub record Wrote (cells : List F) (pix : List F) (w h x y k n : ℕ) (out : Outcome (List F))
      : Type 0 where
    pub after : List F
    pub returns : out ≡ done after
    pub size : length after ≡ length cells
    pub content :
        (px py : ℕ)
        → px < w
        → py < h
        → get_elem? after (py * w + px) ≡ (
            if (py == y) && (leb (x + k) px && ltb px (x + k + n))
            then get_elem? pix (px - x)
            else get_elem? cells (py * w + px))

  module _ (pix : List F) (w h x y : ℕ) (fits : w * h < 2 ^ 32) (row : y < h) where
    put_row_end : (cells : List F) (k : ℕ) → put_row zero cells w (y * w) x k pix ≡ done cells
    unfolding put_row
    put_row_end cells k = refl

    put_row_stop :
        (n : ℕ) (cells : List F) (k : ℕ)
        → x + k < 2 ^ 32
        → w ≤ x + k
        → put_row (suc n) cells w (y * w) x k pix ≡ done cells
    unfolding put_row
    put_row_stop n cells k small out = rw (le→ltb (add32 x k) w (omega arith), put_row)

    put_row_on :
        (n : ℕ) (cells : List F) (k : ℕ) (v : F)
        → length cells ≡ w * h
        → x + k < w
        → w < 2 ^ 32
        → get_elem? pix k ≡ some v
        → put_row (suc n) cells w (y * w) x k pix
          ≡ put_row n (set cells (y * w + (x + k)) v) w (y * w) x (k + 1) pix
    unfolding put_row put
    put_row_on n cells k v size inside wide found =
        let bound = index-lt w h (x + k) y inside row in
        let idx : (y * w + add32 x k) % 2 ^ 64 ≡ y * w + (x + k) = omega (arith, bound) in
        rw (
          lt→ltb (add32 x k) w (omega arith),
          put_row,
          found,
          put,
          idx,
          lt→ltb (y * w + (x + k)) (length cells) (omega (arith, bound)),
        )

    -- The first cell written, seen at every pixel.
    first_cell :
        (cells : List F) (k : ℕ) (v : F) (px py : ℕ)
        → length cells ≡ w * h
        → x + k < w
        → px < w
        → get_elem? (set cells (y * w + (x + k)) v) (py * w + px)
          ≡ (if (py == y) && (px == x + k) then some v else get_elem? cells (py * w + px))
    first_cell cells k v px py size inside p =
        let bound = index-lt w h (x + k) y inside row in
        ground (
          arith,
          index-injective w (x + k) y px py inside p,
          get_elem?-set_self cells (y * w + (x + k)) v,
          get_elem?-set_ne cells (y * w + (x + k)) (py * w + px) v,
        )

    pub put_row-Wrote :
        (n : ℕ) (cells : List F) (k : ℕ)
        → length cells ≡ w * h
        → x + k < 2 ^ 32
        → w < 2 ^ 32
        → k + n ≤ length pix
        → Wrote cells pix w h x y k n (put_row n cells w (y * w) x k pix)
    put_row-Wrote zero cells k size small wide enough = record {
      after = cells;
      returns = put_row_end cells k;
      size = refl;
      content = λ px py p q. ground arith;
    }
    put_row-Wrote (suc n) cells k size small wide enough = elim (dec_lt (x + k) w) [
      | no out ↦ record {
        after = cells;
        returns = put_row_stop n cells k small (omega arith);
        size = refl;
        content = λ px py p q. ground arith;
      }
      | yes inside ↦
          (let (v, found) = get_elem?-some pix k (omega arith) in
            let cells' = set cells (y * w + (x + k)) v in
            let ih =
              put_row-Wrote n cells' (k + 1) (length-set cells (y * w + (x + k)) v ∙ size)
                (omega arith) wide (omega arith) in
            record {
              after = ih.after;
              returns = put_row_on n cells k v size inside wide found ∙ ih.returns;
              size = ih.size ∙ length-set cells (y * w + (x + k)) v;
              content = λ px py p q.
                  ground
                    (arith, ih.content px py p q, first_cell cells k v px py size inside p, found);
            })
    ]

  abbrev pub holding : Surface F → List F → Surface F
  holding s cells = record s { buffer = some cells }

  -- The buffer has a cell for each pixel, and their number fits 32 bits.
  pub record IsValid (s : Surface F) (cells : List F) : Type 0 where
    pub size : length cells ≡ s.width * s.height
    pub area : s.width * s.height < 2 ^ 32
    pub wide : s.width < 2 ^ 32

  pub put_pixels_row :
      (s : Surface F) (cells : List F) (x y n : ℕ) (pix : List F)
      → s.width * s.height < 2 ^ 32
      → y < s.height
      → set_pixels (holding s cells) x y n pix
        ≡ (put_row n cells s.width (y * s.width) x 0 pix >>= λ cells'. done (holding s cells'))
  unfolding set_pixels
  put_pixels_row s cells x y n pix area row =
      let idx : mul32 y s.width ≡ y * s.width = omega (arith, row-le s.width s.height y row) in
      rw (lt→leb s.height y row, idx)

  -- On a surface with its buffer, a call with `n` values for a row that begins at a 32-bit `x`
  -- returns, writes inside the buffer only and keeps the sides. A pixel (px, py) of the surface then has
  -- the value given for it if it is on row y, from x up to x + n, and is as before otherwise.
  pub set_pixels_lem :
      (s : Surface F) {cells : List F} (x y n : ℕ) (pix : List F) {px py : ℕ}
      → IsValid s cells
      → x < 2 ^ 32
      → n ≤ length pix
      → px < s.width
      → py < s.height
      → (cells' : List F) × (set_pixels (holding s cells) x y n pix ≡ done (holding s cells'))
        × IsValid s cells'
        × (get_elem? cells' (py * s.width + px) ≡ row_pixel cells pix s.width x y n px py)
  unfolding set_pixels
  set_pixels_lem s {cells} x y n pix {px} {py} v hx hn p q = elim (dec_lt y s.height) [
    | no below ↦ (cells, rw (le→leb s.height y (omega arith)), v, ground arith)
    | yes row ↦
        (let w =
            put_row-Wrote pix s.width s.height x y v.area row n cells 0 v.size (omega arith) v.wide
              (omega arith) in
          (
            w.after,
            rw (put_pixels_row s cells x y n pix v.area row, w.returns),
            record { size = w.size ∙ v.size; area = v.area; wide = v.wide },
            ground (arith, w.content px py p q),
          ))
  ]
