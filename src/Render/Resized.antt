-- ===== src/Render/Resized.antt =====
-- `resize_callback` of render/ogl_render.c with `render_resize` of app/render.c. The callback is
-- never registered: ogl_render.c has the call in a comment, for the damage that a resize did.
use mdb.Base.{
  ℕ, ◌-◌, ◌*◌, ◌%◌, ◌^◌, ◌≤◌, ◌<◌, ◌≡◌, refl, List, [], ◌∷◌, ◌++◌, arith, length, Outcome, done,
  fault, ◌>>=◌,
}
use mdb.Queue.{Queue, BlockSize}
use mdb.Tasks.{create_tasks}
use mdb.View.{FloatOps, View, set_size}
use mdb.Surface.{Surface, set_buffer, set_pixels}
use mdb.Surface.Pixels.{index-lt}
use mdb.Surface.Outside.{set_pixels-fault}
use mdb.Render.{
  Call, WaitAnswer, pixel_buffer, Window, pbo_create, pbo_resize, buffer_lock, delete_objects,
}
use mdb.Render.Ordered.{Settles, waits_for, buffer_wait-Settles}
use mdb.Render.Target.{floats, pixel_buffer-floats}

-- `struct render_ctx`, with the queue of its scheduler. The view of its kernel is with the window.
pub record RenderCtx (F : Type 0) : Type 0 where
  pub surf : Surface F
  pub width : ℕ
  pub height : ℕ
  pub grain : BlockSize
  pub queue : Queue

-- What a resize leaves.
pub record Resize (F : Type 0) : Type 0 where
  pub calls : List Call
  pub window : Window F
  pub context : RenderCtx F

module _ {F : Type 0} (ops : FloatOps F) where
  unfoldable pub render_resize : ℕ → ℕ → RenderCtx F → View F → Outcome (View F × RenderCtx F)
  render_resize width height ctx v = create_tasks ctx.queue width height ctx.grain >>= λ q.
      done
        ((set_size ops width height v).1, record ctx { width = width; height = height; queue = q })

  unfoldable pub resize_callback :
      List WaitAnswer → ℕ → ℕ → Window F → RenderCtx F → Outcome (Resize F)
  unfolding render_resize
  resize_callback answers width height w ctx =
      let cut = width - width % 8 in
      pbo_resize w.sync answers cut height >>= λ r. render_resize cut height ctx w.view >>= λ t.
      done (record {
        calls = r.0;
        window = record w {
          window_width = width;
          window_height = height;
          pbo = r.1;
          sync = r.2;
          view = t.0;
        };
        context = t.1;
      })

  -- For a window that is made no higher, to a width of a multiple of eight, and to no more pixels
  -- than its new rows but one have in the old width of the surface: where the driver answers the
  -- wait and the tasks are stored, the callback returns, with the tasks of the new size, a buffer of
  -- the new size and a surface of the old sides, and drawing the first pixel of the last new row, on
  -- that surface with that buffer, writes outside the buffer.
  pub resize_callback-fault :
      (answers : List WaitAnswer) (width height : ℕ) (w : Window F) (ctx : RenderCtx F) {q' : Queue}
      (cells : List F) (v : F)
      → Settles answers
      → create_tasks ctx.queue width height ctx.grain ≡ done q'
      → width % 8 ≡ 0
      → ctx.surf.width * ctx.surf.height < 2 ^ 32
      → ctx.surf.width < 2 ^ 32
      → 1 ≤ ctx.surf.width
      → 1 ≤ height
      → height ≤ ctx.surf.height
      → width * height ≤ (height - 1) * ctx.surf.width
      → length cells ≡ floats (pixel_buffer width height)
      → (r : Resize F) × (resize_callback answers width height w ctx ≡ done r)
        × (r.window.pbo ≡ pixel_buffer width height)
        × (r.context.queue ≡ q')
        × (set_pixels (set_buffer r.context.surf cells) 0 (r.context.height - 1) 1 (v ∷ []) ≡ fault)
  unfolding resize_callback pbo_resize pbo_create buffer_lock set_buffer render_resize
  resize_callback-fault answers width height w ctx {q'} cells v settles stored even area wide
        some_width p le few room =
      let s = ctx.surf in
      let cut : width - width % 8 ≡ width = omega (arith, even) in
      let inside = index-lt s.width s.height 0 (height - 1) (omega arith) (omega (arith, p, le)) in
      let made = pixel_buffer-floats width height (omega (arith, few, inside, area)) in
      let (calls, sync) = buffer_lock w.sync in
      (
        record {
          calls =
              waits_for w.sync.handle ++ (delete_objects ∷ ((pbo_create width height).0 ++ calls));
          window = record w {
            window_width = width;
            window_height = height;
            pbo = pixel_buffer width height;
            sync = sync;
            view = (set_size ops width height w.view).1;
          };
          context = record ctx { width = width; height = height; queue = q' };
        },
        rw (cut, buffer_wait-Settles w.sync settles, stored) refl,
        refl,
        refl,
        set_pixels-fault s cells 0 (height - 1) v area (omega arith) wide (omega (arith, p, le))
            (omega (arith, room, made, few)),
      )
