-- ===== src/Surface/Paint.antt =====
-- Runs that draw a part of an image on a surface, and loops over such runs.
use mdb.Base.{
  ℕ, zero, suc, ◌+◌, ◌-◌, ◌*◌, ◌^◌, ◌≤◌, ◌<◌, ◌≡◌, refl, ap, sym, ◌∙◌, ◌&&◌, ◌||◌, Bool, true,
  false, some, List, ltb, leb, ◌==◌, if◌then◌else◌, arith, length, get_elem?, le→leb, ◌>>=◌, dec_lt,
  Outcome, done, add32, for32, for32_stop, for32_round,
}
use mdb.Surface.{Surface, set_pixels}
use mdb.Surface.Pixels.{holding, IsValid, put_row-Wrote, put_pixels_row}

module _ {F : Type 0} (s : Surface F) (color : ℕ → ℕ → F) where
  -- The run returns the surface with its sides, and the pixels that are `inside` have their color
  -- while the others are as before.
  pub record Painted (cells : List F) (inside : ℕ → ℕ → Bool) (out : Outcome (Surface F))
      : Type 0 where
    pub after : List F
    pub returns : out ≡ done (holding s after)
    pub valid : IsValid s after
    pub shows :
        (px py : ℕ)
        → px < s.width
        → py < s.height
        → get_elem? after (py * s.width + px)
          ≡ (if inside px py then some (color px py) else get_elem? cells (py * s.width + px))

  -- The values of a call of `surface_set_pixels` are the colors of its pixels.
  abbrev pub AreColors : ℕ → ℕ → ℕ → List F → Type 0
  AreColors x y n pix = (k : ℕ) → k < n → get_elem? pix k ≡ some (color (x + k) y)

  pub set_pixels-Painted :
      (x y n : ℕ) (pix : List F) {cells : List F}
      → IsValid s cells
      → x < 2 ^ 32
      → n ≤ length pix
      → AreColors x y n pix
      → Painted cells
          (λ px py. (py == y) && (leb x px && ltb px (x + n)))
          (set_pixels (holding s cells) x y n pix)
  unfolding set_pixels
  set_pixels-Painted x y n pix {cells} v hx hn colors = elim (dec_lt y s.height) [
    | no below ↦ record {
      after = cells;
      returns = rw (le→leb s.height y (omega arith));
      valid = v;
      shows = λ px py p q. ground arith;
    }
    | yes row ↦
        (let w =
            put_row-Wrote pix s.width s.height x y v.area row n cells 0 v.size (omega arith) v.wide
              (omega arith) in
          record {
            after = w.after;
            returns = rw (put_pixels_row s cells x y n pix v.area row, w.returns);
            valid = record { size = w.size ∙ v.size; area = v.area; wide = v.wide };
            shows = λ px py p q. ground (arith, w.content px py p q, colors (px - x));
          })
  ]

  -- The same pixels, told in another way.
  pub repaint :
      {cells : List F} {inside inside' : ℕ → ℕ → Bool} {out : Outcome (Surface F)}
      → Painted cells inside out
      → ((px py : ℕ) → inside px py ≡ inside' px py)
      → Painted cells inside' out
  repaint w e = record {
    after = w.after;
    returns = w.returns;
    valid = w.valid;
    shows = λ px py p q. rw (sym (e px py)) (w.shows px py p q);
  }

  pub no_pixels :
      {cells : List F} → IsValid s cells → Painted cells (λ px py. false) (done (holding s cells))
  no_pixels {cells} v = record {
    after = cells;
    returns = refl;
    valid = v;
    shows = λ px py p q. refl;
  }

  -- One run after another.
  pub in_turn :
      {cells : List F} {inside inside' : ℕ → ℕ → Bool} {out : Outcome (Surface F)}
      (next : Surface F → Outcome (Surface F)) (w : Painted cells inside out)
      → Painted w.after inside' (next (holding s w.after))
      → Painted cells (λ px py. inside px py || inside' px py) (out >>= next)
  in_turn next w w' = record {
    after = w'.after;
    returns = ap (λ o. o >>= next) w.returns ∙ w'.returns;
    valid = w'.valid;
    shows = λ px py p q. ground (arith, w'.shows px py p q, w.shows px py p q);
  }

  -- A loop whose body at `x` paints the pixels from x up to x + step on an axis, on one side of the
  -- other axis.
  module _ (test : ℕ → Bool) (step : ℕ) (body : ℕ → Surface F → Outcome (Surface F))
      (axis : ℕ → ℕ → ℕ) (side : ℕ → ℕ → Bool)
      (paints : (x : ℕ) (cells : List F)
        → test x ≡ true
        → IsValid s cells
        → Painted cells
            (λ px py. side px py && (leb x (axis px py) && ltb (axis px py) (x + step)))
            (body x (holding s cells))) where
    pub for32-Painted :
        (n fuel x : ℕ) {cells : List F}
        → IsValid s cells
        → n < fuel
        → x + n * step < 2 ^ 32
        → ((k : ℕ) → k < n → test (x + k * step) ≡ true)
        → test (x + n * step) ≡ false
        → Painted cells
            (λ px py. side px py && (leb x (axis px py) && ltb (axis px py) (x + n * step)))
            (for32 test step body fuel x (holding s cells))
    for32-Painted n zero x v hf small on off = absurd (omega arith)
    for32-Painted zero (suc fuel) x {cells} v hf small on off =
        let here : x ≡ x + 0 * step = omega arith in
        let stop : test x ≡ false = ap test here ∙ off in
        record {
          after = cells;
          returns = for32_stop test step body fuel (holding s cells) stop;
          valid = v;
          shows = λ px py p q. ground arith;
        }
    for32-Painted (suc n) (suc fuel) x {cells} v hf small on off =
        let here : x ≡ x + 0 * step = omega arith in
        let go : test x ≡ true = ap test here ∙ on 0 (omega arith) in
        let w = paints x cells go v in
        let shift : (k : ℕ) → x + step + k * step ≡ x + suc k * step = λ k. grind arith in
        let next : add32 x step ≡ x + step = omega (arith, shift n) in
        let ih =
          for32-Painted n fuel (x + step) w.valid (omega arith) (omega (arith, shift n))
            (λ k h. ap test (shift k) ∙ on (suc k) (omega arith)) (ap test (shift n) ∙ off) in
        record {
          after = ih.after;
          returns = for32_round test step body fuel go w.returns next ∙ ih.returns;
          valid = ih.valid;
          shows = λ px py p q. ground (arith, shift n, ih.shows px py p q, w.shows px py p q);
        }
