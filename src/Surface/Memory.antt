-- ===== src/Surface/Memory.antt =====
-- `surface_create` and `surface_destroy`: what is made, and that it is given back.
use mdb.Base.{
  ℕ, ◌*◌, ◌^◌, ◌<◌, ◌≡◌, refl, Bool, true, false, some, arith, length-replicate, replicate,
  has_flag, mul32,
}
use mathlib.Core.List.{reverse}
use mdb.Surface.{success, fail, create, destroy, buffer_create}
use mdb.Surface.Pixels.{IsValid}

module _ {F : Type 0} (zero_f : F) where
  -- Whatever the flags, and whether memory is found or not: destroying the surface gives back what
  -- its creation took, the last block first.
  pub destroy-create :
      (memory : Bool) (width height flags : ℕ)
      → let c = create zero_f memory width height flags in
        destroy (some c.surface) ≡ reverse c.allocated
  unfolding create destroy
  destroy-create memory width height flags = ground arith

  -- With the flag for a buffer and sides whose product fits 32 bits: where there is memory
  -- `surface_create` succeeds, with a cell for each pixel, all of them zero; without memory it
  -- fails.
  create_lem :
      (width height flags : ℕ)
      → has_flag flags buffer_create ≡ true
      → width < 2 ^ 32
      → width * height < 2 ^ 32
      → let c = create zero_f true width height flags in
        (c.status ≡ success)
        × (c.surface.buffer ≡ some (replicate (width * height) zero_f))
        × IsValid c.surface (replicate (width * height) zero_f)
        × ((create zero_f false width height flags).status ≡ fail)
  unfolding create
  create_lem width height flags f w a =
      let area : mul32 width height ≡ width * height = omega arith in
      rw (f, area)
        (
          refl,
          refl,
          record { size = length-replicate (width * height) zero_f; area = a; wide = w },
          refl,
        )
