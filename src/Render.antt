-- ===== src/Render.antt =====
-- render/ogl_render.c, ogl_pixel_buffer.c and ogl_buffer_sync.c, and the callbacks of app/render.c:
-- the window in which the image is shown, frame by frame. What OpenGL and GLFW answer is an input
-- of each frame, and of the calls of OpenGL only those stand here that deal with the pixel buffer
-- and its fences. `glFenceSync` gives a new handle each time, which is the number of fences before.
pub mod Ordered
pub mod Frames
pub mod Keys
pub mod Target
pub mod Resized
pub mod Update
use mdb.Base.{
  ℕ, zero, suc, ◌+◌, ◌*◌, ◌-◌, ◌%◌, ◌^◌, ◌≡◌, Bool, true, false, Option, none, some, List, [], ◌∷◌,
  ◌++◌, ◌==◌, ◌&&◌, if◌then◌else◌, Outcome, done, timeout, ◌>>=◌, mul32,
}
use mdb.View.{
  FloatOps, View, Key, key_1, key_2, key_3, key_4, key_right, key_left, key_up, key_down, key_f1,
  key_f2, key_f3, key_f4, other, Action, press, release, keyboard, event_handler,
}

-- Calls that reach the driver, and the host's writes to the mapped buffer, in their order.
pub data Call : Type 0 where
  storage : (bytes : ℕ) → Call  -- `glBufferStorage`, and the mapping
  tex_image : (width height : ℕ) → Call
  delete_objects : Call  -- `glDeleteBuffers` and `glDeleteTextures`
  update : Call  -- the host writes the pixels
  tex_sub_image : (width height : ℕ) → Call  -- the driver reads them
  fence_sync : (handle : ℕ) → Call
  delete_sync : (handle : ℕ) → Call
  waited : (handle : ℕ) → Call  -- `glClientWaitSync`, where it was satisfied
  swap_buffers : Call

-- A `GLsync` variable, `none` for a null handle, and how many fences the driver has made.
pub record Sync : Type 0 where
  pub handle : Option ℕ
  pub made : ℕ

unfoldable pub delete_sync_of : Option ℕ → List Call
delete_sync_of none = []
delete_sync_of (some h) = delete_sync h ∷ []

unfoldable pub buffer_lock : Sync → List Call × Sync
unfolding delete_sync_of
buffer_lock sync = (
  delete_sync_of sync.handle ++ (fence_sync sync.made ∷ []),
  record { handle = some sync.made; made = sync.made + 1 },
)

pub data WaitAnswer : Type 0 where
  already_signaled condition_satisfied timeout_expired wait_failed : WaitAnswer

-- The loop of `ogl_buffer_wait`, on the answers that it gets.
unfoldable pub client_wait : ℕ → List WaitAnswer → Outcome (List Call)
client_wait h [] = timeout
client_wait h (already_signaled ∷ _) = done (waited h ∷ [])
client_wait h (condition_satisfied ∷ _) = done (waited h ∷ [])
client_wait h (timeout_expired ∷ rest) = client_wait h rest
client_wait h (wait_failed ∷ rest) = client_wait h rest

unfoldable pub buffer_wait : Sync → List WaitAnswer → Outcome (List Call)
unfolding client_wait
buffer_wait sync answers = elim sync.handle [ none ↦ done [] | some h ↦ client_wait h answers ]

-- `struct _ogl_pixel_buffer`, without the names that OpenGL gives its objects.
pub record PixelBuffer : Type 0 where
  pub width : ℕ
  pub height : ℕ
  pub buff_size : ℕ

-- The product of the sides is a 32-bit one, that with `sizeof(float)` is not, but is stored so.
unfoldable pub pixel_buffer : ℕ → ℕ → PixelBuffer
pixel_buffer width height = record {
  width = width;
  height = height;
  buff_size = mul32 width height * 4 % 2 ^ 32;
}

unfoldable pub pbo_create : ℕ → ℕ → List Call × PixelBuffer
unfolding pixel_buffer
pbo_create width height =
    let pbo = pixel_buffer width height in
    (storage pbo.buff_size ∷ tex_image width height ∷ [], pbo)

unfoldable pub pbo_resize :
    Sync → List WaitAnswer → ℕ → ℕ → Outcome (List Call × PixelBuffer × Sync)
unfolding buffer_wait buffer_lock pbo_create
pbo_resize sync answers width height = buffer_wait sync answers >>= λ c.
    let (c', pbo) = pbo_create width height in
    let (c'', sync') = buffer_lock sync in done (c ++ (delete_objects ∷ (c' ++ c'')), pbo, sync')

-- The number of a key, which GLFW and the kernel have in common.
unfoldable pub key_code : Key → ℕ
key_code key_1 = 49
key_code key_2 = 50
key_code key_3 = 51
key_code key_4 = 52
key_code key_right = 262
key_code key_left = 263
key_code key_down = 264
key_code key_up = 265
key_code key_f1 = 290
key_code key_f2 = 291
key_code key_f3 = 292
key_code key_f4 = 293
key_code (other code) = code

abbrev pub is_press : Action → Bool
is_press press = true
is_press _ = false

abbrev pub is_down : Action → Bool
is_down release = false
is_down _ = true

-- `struct _ogl_render`, with the flag of its window and the view of the kernel that
-- `render_key_callback` hands the keys to.
pub record Window (F : Type 0) : Type 0 where
  pub window_width : ℕ
  pub window_height : ℕ
  pub exposure : F
  pub sync : Sync
  pub pbo : PixelBuffer
  pub should_close : Bool
  pub view : View F

-- What happens around one frame: the answers to the two waits, and the keys that are polled.
pub record Frame : Type 0 where
  pub update_answers : List WaitAnswer
  pub wait_answers : List WaitAnswer
  pub polled : List (Key × Action)

-- What a series of frames leaves: whether `exit` has been called, the calls, and the rest.
pub record Shown (F S : Type 0) : Type 0 where
  pub exited : Bool
  pub calls : List Call
  pub window : Window F
  pub state : S

module _ {F S : Type 0} where
  abbrev pub prepend : List Call → Shown F S → Outcome (Shown F S)
  prepend calls r = done (record r { calls = calls ++ r.calls })

  -- A frame and those behind it, unless it called `exit`.
  abbrev pub behind : Shown F S → Bool → (Window F → S → Outcome (Shown F S)) → Outcome (Shown F S)
  behind r true rest = done r
  behind r false rest = rest r.window r.state >>= prepend r.calls

module _ {F : Type 0} (ops : FloatOps F) where
  -- `user_key_cb`, which is `render_key_callback`
  unfoldable pub user_key : Key → Action → Window F → Window F
  user_key key action w = record w {
    view = (event_handler ops (keyboard (record { key = key; action = action })) w.view).1;
  }

  unfoldable pub scale_exposure : ℕ → Window F → Window F
  scale_exposure hundredths w = record w {
    exposure = ops.times w.exposure (record { negative = false; digits = hundredths; places = 2 });
  }

  unfoldable pub key_callback : Key → Action → Window F → Window F
  unfolding key_code user_key scale_exposure
  key_callback key action w =
      if key_code key == 256 && is_press action
      then record w { should_close = true }
      else if is_down action && key_code key == 53
      then scale_exposure 95 w
      else if is_down action && key_code key == 54
      then scale_exposure 105 w
      else user_key key action w

  -- `glfwPollEvents`
  unfoldable pub poll_events : List (Key × Action) → Window F → Window F
  unfolding key_callback
  poll_events [] w = w
  poll_events ((key, action) ∷ keys) w = poll_events keys (key_callback key action w)

  -- `render_update` is `update`, which is `none` where it calls `exit`.
  module _ {S : Type 0} (update_fun : S → Outcome (Option S)) where
    -- The rest of a round of the loop, when the pixels are written.
    unfoldable pub show : Frame → List Call → Window F → S → Outcome (Shown F S)
    unfolding buffer_wait buffer_lock poll_events
    show f c w s =
        let (c', sync) = buffer_lock w.sync in
        buffer_wait sync f.wait_answers >>= λ c''.
        let (c''', sync') = buffer_lock sync in
        done (record {
          exited = false;
          calls =
              c
              ++ (update
                  ∷ (c'
                      ++ (c''
                          ++ (tex_sub_image w.pbo.width w.pbo.height
                              ∷ (c''' ++ (swap_buffers ∷ []))))));
          window = poll_events f.polled (record w { sync = sync' });
          state = s;
        })

    -- A round of the loop of `ogl_render_render_loop`.
    unfoldable pub render_frame : Frame → Window F → S → Outcome (Shown F S)
    unfolding buffer_wait show
    render_frame f w s = buffer_wait w.sync f.update_answers >>= λ c. update_fun s >>= λ r. elim r [
      | none ↦ done (record { exited = true; calls = c ++ (update ∷ []); window = w; state = s })
      | some s' ↦ show f c w s'
    ]

    -- `ogl_render_render_loop` on a series of frames, where it stands behind them.
    unfoldable pub render_loop : List Frame → Window F → S → Outcome (Shown F S)
    unfolding render_frame
    render_loop [] w s = done (record { exited = false; calls = []; window = w; state = s })
    render_loop (f ∷ fs) w s = elim w.should_close [
      | true ↦ done (record { exited = false; calls = []; window = w; state = s })
      | false ↦ render_frame f w s >>= λ r. behind r r.exited (render_loop fs)
    ]

-- `ogl_render_init_render_target`: the width is cut to a multiple of eight.
unfoldable pub target_width : ℕ → ℕ
target_width width = width - width % 8

unfoldable pub init_render_target : ℕ → ℕ → List Call × PixelBuffer
unfolding target_width pbo_create
init_render_target window_width window_height = pbo_create (target_width window_width) window_height
