-- ===== src/Surface/Outside.antt =====
-- What `surface_set_pixels` does where the buffer is shorter than the sides of the surface say.
use mdb.Base.{
  ℕ, ◌+◌, ◌*◌, ◌%◌, ◌^◌, ◌≤◌, ◌<◌, ◌≡◌, List, [], ◌∷◌, lt→ltb, le→ltb, arith, length, fault, add32,
}
use mdb.Surface.{Surface, put, put_row, set_pixels}
use mdb.Surface.Pixels.{holding, put_pixels_row, index-lt}

-- A pixel of the surface whose cell is not in the buffer.
pub set_pixels-fault :
    {F : Type 0} (s : Surface F) (cells : List F) (x y : ℕ) (v : F)
    → s.width * s.height < 2 ^ 32
    → x < s.width
    → s.width < 2 ^ 32
    → y < s.height
    → length cells ≤ y * s.width + x
    → set_pixels (holding s cells) x y 1 (v ∷ []) ≡ fault
unfolding put_row put
set_pixels-fault s cells x y v area inside wide row short =
    let bound = index-lt s.width s.height x y inside row in
    let idx : (y * s.width + add32 x 0) % 2 ^ 64 ≡ y * s.width + x = omega (arith, bound) in
    rw (
      put_pixels_row s cells x y 1 (v ∷ []) area row,
      put_row,
      lt→ltb (add32 x 0) s.width (omega arith),
      put,
      idx,
      le→ltb (y * s.width + x) (length cells) short,
    )
