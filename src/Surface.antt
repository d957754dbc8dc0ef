-- ===== src/Surface.antt =====
-- surface/surface.c and surface.h: a surface of 32-bit floats. The float type is a parameter, with
-- the value that `memset` to zero bytes gives.
pub mod Pixels
pub mod Memory
pub mod Paint
pub mod Outside
use mdb.Base.{
  ℕ, zero, suc, ◌+◌, ◌*◌, ◌^◌, ◌%◌, Bool, true, false, Option, none, some, List, [], ◌∷◌, ltb, leb,
  if◌then◌else◌, length, get_elem?, set, replicate, Outcome, done, fault, add32, mul32, has_flag,
  ◌>>=◌, ◌&&◌,
}

abbrev pub buffer_create : ℕ
buffer_create = 1

abbrev pub buffer_ext : ℕ
buffer_ext = 2

abbrev pub buffer_f32 : ℕ
buffer_f32 = 2 ^ 20

pub data Status : Type 0 where
  success fail : Status

-- `buffer` is `none` for a null pointer.
pub record Surface (F : Type 0) : Type 0 where
  pub buffer : Option (List F)
  pub width : ℕ
  pub height : ℕ
  pub data_need_free : Bool

-- What an operation takes from the allocator, or gives back.
pub data Block : Type 0 where
  struct_block buffer_block : Block

pub record Created (F : Type 0) : Type 0 where
  pub status : Status
  pub surface : Surface F
  pub allocated : List Block

module _ {F : Type 0} (zero_f : F) where
  -- `memory` says whether `malloc_aligned` succeeds; the product of the sides is a 32-bit one.
  unfoldable pub create_buffer : Bool → ℕ → ℕ → Option (List F)
  create_buffer memory width height =
      if memory then some (replicate (mul32 width height) zero_f) else none

  blank : ℕ → ℕ → Surface F
  blank width height = record {
    buffer = none;
    width = width;
    height = height;
    data_need_free = false;
  }

  with_buffer : ℕ → ℕ → Option (List F) → Created F
  unfolding blank
  with_buffer width height none = record {
    status = fail;
    surface = blank width height;
    allocated = struct_block ∷ [];
  }
  with_buffer width height (some cells) = record {
    status = success;
    surface = record (blank width height) { buffer = some cells; data_need_free = true };
    allocated = struct_block ∷ buffer_block ∷ [];
  }

  unfoldable pub create : Bool → ℕ → ℕ → ℕ → Created F
  unfolding blank with_buffer create_buffer
  create memory width height flags =
      if has_flag flags buffer_create
      then with_buffer width height (create_buffer memory width height)
      else if has_flag flags buffer_ext
      then record { status = success; surface = blank width height; allocated = struct_block ∷ [] }
      else record { status = fail; surface = blank width height; allocated = struct_block ∷ [] }

module _ {F : Type 0} where
  -- What is freed; `none` for a null surface.
  unfoldable pub destroy : Option (Surface F) → List Block
  destroy none = []
  destroy (some s) =
      if s.data_need_free then buffer_block ∷ struct_block ∷ [] else struct_block ∷ []

  unfoldable pub set_buffer : Surface F → List F → Surface F
  set_buffer s cells = record s { buffer = some cells }

  -- `pix_buffer[idx] = pix_data[k]`
  put : List F → ℕ → Option F → Outcome (List F)
  put cells idx none = fault
  put cells idx (some v) = if ltb idx (length cells) then done (set cells idx v) else fault

  -- The loop over k, with the rounds that are left.
  pub put_row : ℕ → List F → ℕ → ℕ → ℕ → ℕ → List F → Outcome (List F)
  put_row zero cells width idx_y x k pix = done cells
  put_row (suc rounds) cells width idx_y x k pix =
      let xi = add32 x k in
      elim (ltb xi width) [
        | false ↦ done cells
        | true ↦ put cells ((idx_y + xi) % 2 ^ 64) (get_elem? pix k) >>= λ cells'.
            put_row rounds cells' width idx_y x (k + 1) pix
      ]

  put_pixels : Surface F → Option (List F) → ℕ → ℕ → ℕ → List F → Outcome (Surface F)
  unfolding put_row put
  put_pixels s none x y n pix = if ltb x s.width && ltb 0 n then fault else done s
  put_pixels s (some cells) x y n pix =
      put_row n cells s.width (mul32 y s.width) x 0 pix >>= λ cells'.
      done (record s { buffer = some cells' })

  unfoldable pub set_pixels : Surface F → ℕ → ℕ → ℕ → List F → Outcome (Surface F)
  unfolding put_pixels
  set_pixels s x y n pix = if leb s.height y then done s else put_pixels s s.buffer x y n pix
