-- ===== src/Render/Target.antt =====
-- The buffer that `ogl_render_init_render_target` maps, and the surface that the kernels draw on.
use mdb.Base.{
  ℕ, zero, suc, ◌+◌, ◌-◌, ◌*◌, ◌/◌, ◌%◌, ◌^◌, ◌≤◌, ◌<◌, ◌≡◌, ◌≢◌, ◌⊎◌, inl, inr, ap, ap₂, List, [],
  ◌∷◌, arith, length, fault,
}
use mdb.Surface.{Surface, set_buffer, set_pixels}
use mdb.Surface.Pixels.{IsValid}
use mdb.Surface.Outside.{set_pixels-fault}
use mdb.Render.{PixelBuffer, pixel_buffer, pbo_create, target_width, init_render_target}

-- The floats that a buffer has room for.
abbrev pub floats : PixelBuffer → ℕ
floats pbo = pbo.buff_size / 4

pub pixel_buffer-floats :
    (width height : ℕ)
    → width * height < 2 ^ 32
    → floats (pixel_buffer width height) ≡ width * height % 2 ^ 30
unfolding pixel_buffer
pixel_buffer-floats width height h = omega arith

cut-le : (w h : ℕ) → (w - w % 8) * h ≤ w * h
cut-le w h = grind arith

cut-lt : (w h : ℕ) → 1 ≤ h → w % 8 ≢ 0 → (w - w % 8) * h < w * h
cut-lt w h p n = grind arith

area-lt : (w h : ℕ) → w ≤ 65535 → h ≤ 65535 → w * h < 2 ^ 32
area-lt w h p q = grind arith

last_index : (w h : ℕ) → 1 ≤ w → 1 ≤ h → (h - 1) * w + (w - 1) + 1 ≡ w * h
last_index w zero p q = absurd (omega (arith, q))
last_index w (suc k) p q =
    let next : w * suc k ≡ k * w + w = grind arith in
    let before : (suc k - 1) * w ≡ k * w = ap (λ t. t * w) (omega arith) in
    omega (arith, next, before, p)

module _ (width height : ℕ) (wide : width ≤ 65535) (high : height ≤ 65535) where
  target-floats : floats (init_render_target width height).1 ≡ (width - width % 8) * height % 2 ^ 30
  unfolding init_render_target pbo_create target_width
  target-floats =
      pixel_buffer-floats (width - width % 8) height
        (omega (arith, area-lt width height wide high, cut-le width height))

  module _ {F : Type 0} (s : Surface F) (cells : List F) (w : s.width ≡ width)
      (h : s.height ≡ height)
      (room : length cells ≡ floats (init_render_target width height).1) where
    -- For sides of at most 65535 and a surface of these sides: where the width is a multiple of eight
    -- and there are less than 2^30 pixels, the buffer of the render target has a cell for each of them.
    pub target-IsValid :
        width % 8 ≡ 0 → width * height < 2 ^ 30 → IsValid (set_buffer s cells) cells
    unfolding set_buffer
    target-IsValid even small =
        let cut : width - width % 8 ≡ width = omega (arith, even) in
        let whole : (width - width % 8) * height ≡ width * height = ap (λ t. t * height) cut in
        let area : s.width * s.height ≡ width * height = ap₂ ◌*◌ w h in
        record {
          size = omega (arith, room, target-floats, whole, area);
          area = omega (arith, area);
          wide = omega arith;
        }

    -- For sides from 1 to 65535 and a surface of these sides: where the width is no multiple of
    -- eight, or there are 2^30 pixels or more, drawing the last pixel of the surface writes outside
    -- the buffer of the render target.
    pub target-fault :
        (v : F)
        → 1 ≤ width
        → 1 ≤ height
        → (width % 8 ≢ 0) ⊎ (2 ^ 30 ≤ width * height)
        → set_pixels (set_buffer s cells) (width - 1) (height - 1) 1 (v ∷ []) ≡ fault
    unfolding set_buffer
    target-fault v pw ph bad =
        let area : s.width * s.height ≡ width * height = ap₂ ◌*◌ w h in
        let row : (height - 1) * s.width ≡ (height - 1) * width = ap (λ t. (height - 1) * t) w in
        let short : (width - width % 8) * height % 2 ^ 30 < width * height = elim bad [
          | inl odd ↦ omega (arith, cut-lt width height ph odd)
          | inr large ↦ omega (arith, large)
        ] in
        set_pixels-fault s cells (width - 1) (height - 1) v
          (omega (arith, area, area-lt width height wide high)) (omega (arith, w))
          (omega (arith, w)) (omega (arith, h, ph))
          (omega (arith, room, target-floats, short, row, last_index width height pw ph))
