-- ===== src/View.antt =====
-- kernel_modules/mandelbrot/mdb_kernel_common.c and .h: the view of the fractal that the
-- Mandelbrot kernels share, and the keys that change it. Float arithmetic is a parameter.
pub mod Bailout
pub mod Metadata
use mdb.Base.{
  ℕ, ◌+◌, Bool, true, false, Option, none, some, List, [], ◌∷◌, ltb, ◌==◌, ◌||◌, if◌then◌else◌,
  add32, sub32,
}

-- A decimal literal of the source: its sign, its digits and how many of them stand behind the point.
pub record Decimal : Type 0 where
  pub negative : Bool
  pub digits : ℕ
  pub places : ℕ

-- The arithmetic that the kernel uses, rounded as C rounds each expression.
pub record FloatOps (F : Type 0) : Type 0 where
  pub literal : Decimal → F
  pub times : F → Decimal → F  -- `x *= d`
  pub plus_times : F → Decimal → F → F  -- `x += d * y`
  pub minus_times : F → Decimal → F → F  -- `x -= d * y`
  pub reciprocal : ℕ → F  -- `1.0f / n`
  pub ratio : ℕ → ℕ → F  -- `(float) m / n`

-- `struct mdb_t`; `surf` is an address, or `none` for a null pointer.
pub record View (F : Type 0) : Type 0 where
  pub bailout : ℕ
  pub width : ℕ
  pub height : ℕ
  pub shift_x : F
  pub shift_y : F
  pub scale : F
  pub surf : Option ℕ
  pub width_r : F
  pub height_r : F
  pub aspect_ratio : F

pub data Status : Type 0 where
  success fail : Status

pub data Action : Type 0 where
  release press repeat : Action

-- The keys that the handler knows, and any other.
pub data Key : Type 0 where
  key_1 key_2 key_3 key_4 key_right key_left key_up key_down key_f1 key_f2 key_f3 key_f4 : Key
  other : (code : ℕ) → Key

-- The two fields of `struct mdb_event_keyboard` that are read.
pub record KeyboardEvent : Type 0 where
  pub key : Key
  pub action : Action

pub data Event : Type 0 where
  keyboard : KeyboardEvent → Event
  unknown : (type : ℕ) → Event

unfoldable pub bailout_get_mod : ℕ → ℕ
bailout_get_mod bailout =
    if bailout == 1
    then 0
    else if ltb bailout 256
    then 1
    else if ltb bailout 512
    then 2
    else if ltb bailout 1024
    then 4
    else if ltb bailout 2048
    then 8
    else if ltb bailout 4096
    then 32
    else if ltb bailout 8192
    then 128
    else if ltb bailout 16384
    then 256
    else 512

module _ {F : Type 0} (ops : FloatOps F) where
  abbrev lit : Bool → ℕ → ℕ → F
  lit negative digits places =
      ops.literal (record { negative = negative; digits = digits; places = places })

  abbrev tenth : Decimal
  tenth = record { negative = false; digits = 1; places = 1 }

  -- The `switch` of `event_keyboard`.
  unfoldable pub press_key : Key → View F → Status × View F
  unfolding bailout_get_mod
  press_key key_1 v = (
    success,
    record v { scale = ops.times v.scale (record { negative = false; digits = 11; places = 1 }) },
  )
  press_key key_2 v = (
    success,
    record v { scale = ops.times v.scale (record { negative = false; digits = 9; places = 1 }) },
  )
  press_key key_3 v = (success, record v { bailout = sub32 v.bailout (bailout_get_mod v.bailout) })
  press_key key_4 v = (success, record v { bailout = add32 v.bailout (bailout_get_mod v.bailout) })
  press_key key_right v = (success, record v { shift_x = ops.plus_times v.shift_x tenth v.scale })
  press_key key_left v = (success, record v { shift_x = ops.minus_times v.shift_x tenth v.scale })
  press_key key_up v = (success, record v { shift_y = ops.plus_times v.shift_y tenth v.scale })
  press_key key_down v = (success, record v { shift_y = ops.minus_times v.shift_y tenth v.scale })
  press_key key_f1 v = (
    success,
    record v { scale = lit false 2793042 6; shift_x = lit true 860787 6; shift_y = lit false 0 1 },
  )
  press_key key_f2 v = (
    success,
    record v {
      scale = lit false 188964 8;
      shift_x = lit true 1347385054652062 15;
      shift_y = lit true 63483549665202 15;
    },
  )
  press_key key_f3 v = (
    success,
    record v {
      scale = lit false 57683 6;
      shift_x = lit true 715882 6;
      shift_y = lit true 287651 6;
    },
  )
  press_key key_f4 v = (
    success,
    record v {
      scale = lit false 3869 6;
      shift_x = lit false 356868 6;
      shift_y = lit true 348140 6;
    },
  )
  press_key (other code) v = (fail, v)

  unfoldable pub event_keyboard : KeyboardEvent → View F → Status × View F
  unfolding press_key
  event_keyboard e v = elim e.action [
    | release ↦ (success, v)
    | press ↦ press_key e.key v
    | repeat ↦ press_key e.key v
  ]

  unfoldable pub event_handler : Event → View F → Status × View F
  unfolding event_keyboard
  event_handler (keyboard e) v = event_keyboard e v
  event_handler (unknown type) v = (fail, v)

  -- `mdb_kernel_init`: the second of its two presets, the only one that is reached.
  unfoldable pub init : View F → Status × View F
  init v = (
    success,
    record v {
      bailout = 256;
      scale = lit false 188964 8;
      shift_x = lit true 1347385054652062 15;
      shift_y = lit true 63483549665202 15;
    },
  )

  unfoldable pub set_size : ℕ → ℕ → View F → Status × View F
  set_size width height v = (
    success,
    record v {
      width = width;
      height = height;
      width_r = ops.reciprocal width;
      height_r = ops.reciprocal height;
      aspect_ratio = ops.ratio width height;
    },
  )

  unfoldable pub set_surface : Option ℕ → View F → Status × View F
  set_surface surf v = (success, record v { surf = surf })

  -- A series of events, whose statuses `mdb_kernel_event` hands back to the caller one by one.
  unfoldable pub events : List Event → View F → View F
  unfolding event_handler
  events [] v = v
  events (e ∷ es) v = events es (event_handler e v).1
