-- ===== src/Examples/Render.antt =====
-- The window of render/ogl_render.c at concrete inputs.
use mdb.Base.{
  ◌-◌, ℕ, ◌+◌, ◌≡◌, inl, refl, ◌||◌, false, none, some, List, [], ◌∷◌, arith, replicate, done,
  fault, Option, Outcome,
}
use mdb.Queue
use mdb.Tasks.{create_tasks, queue_len}
use mdb.View
use mdb.Surface
use mdb.Surface.Pixels.{IsValid}
use mdb.Render
use mdb.Render.Ordered.{Settles}
use mdb.Render.Keys.{handed_on, quits, poll_events_lem}
use mdb.Render.Target.{target-IsValid, target-fault}
use mdb.Render.Resized
use mdb.Render.Resized.{resize_callback-fault}
use mdb.Examples.Kernel.{number_ops, at_bailout}
use mdb.Examples.Frame.{eight}

abbrev opened : Render.Window ℕ
opened = record {
  window_width = 16;
  window_height = 8;
  exposure = 1;
  sync = record { handle = none; made = 0 };
  pbo = record { width = 16; height = 8; buff_size = 512 };
  should_close = false;
  view = at_bailout 256;
}

-- Key 4 in the first frame, and Escape in the second, behind which no frame is shown.
abbrev four_then_escape : List Render.Frame
four_then_escape =
    record {
      update_answers = Render.WaitAnswer.already_signaled ∷ [];
      wait_answers = Render.WaitAnswer.timeout_expired ∷ Render.WaitAnswer.already_signaled ∷ [];
      polled = (View.Key.key_4, View.Action.press) ∷ [];
    }
    ∷ record {
      update_answers = Render.WaitAnswer.condition_satisfied ∷ [];
      wait_answers = Render.WaitAnswer.already_signaled ∷ [];
      polled = (View.Key.other 256, View.Action.press) ∷ [];
    }
    ∷ []

abbrev counts_frames : ℕ → Outcome (Option ℕ)
counts_frames n = done (some (n + 1))

-- 5 and the release of 6, of which the kernel gets the second.
abbrev five_and_six : List (View.Key × View.Action)
five_and_six =
    (View.Key.other 53, View.Action.press)
    ∷ (View.Key.other 54, View.Action.release)
    ∷ (View.Key.key_4, View.Action.press)
    ∷ []

poll_events_lem_example :
    ((Render.poll_events number_ops five_and_six opened).view
      ≡ View.events number_ops (handed_on five_and_six) opened.view)
    × ((Render.poll_events number_ops five_and_six opened).should_close
        ≡ (quits five_and_six || opened.should_close))
poll_events_lem_example = poll_events_lem number_ops five_and_six opened

bailout_raised : (Render.poll_events number_ops five_and_six opened).view.bailout ≡ 258
unfolding Render.key_code Render.poll_events Render.key_callback Render.user_key
    Render.scale_exposure View.event_handler View.event_keyboard View.press_key View.bailout_get_mod
bailout_raised = refl

-- A surface without its buffer.
abbrev sides : ℕ → ℕ → Surface.Surface ℕ
sides w h = record { buffer = none; width = w; height = h; data_need_free = false }

target-IsValid_example :
    IsValid (Surface.set_buffer (sides 16 8) (replicate 128 9)) (replicate 128 9)
unfolding Render.init_render_target Render.pbo_create Render.pixel_buffer Render.target_width
target-IsValid_example =
    target-IsValid 16 8 (omega arith) (omega arith) (sides 16 8) (replicate 128 9) refl refl refl
      (omega arith) (omega arith)

-- A width of 9, of which the buffer has eight columns.
target-fault_example :
    Surface.set_pixels (Surface.set_buffer (sides 9 2) (replicate 16 0)) 8 1 1 (7 ∷ []) ≡ fault
unfolding Render.init_render_target Render.pbo_create Render.pixel_buffer Render.target_width
target-fault_example =
    target-fault 9 2 (omega arith) (omega arith) (sides 9 2) (replicate 16 0) refl refl refl 7
      (omega arith) (omega arith) (inl (omega arith))

abbrev queue_of_one : Queue.Queue
queue_of_one = record {
  cur_task_idx = 0;
  tasks = some (record { x0 = 0; x1 = 7; y0 = 0; y1 = 7 }) ∷ [];
  capacity = 1;
  length = 1;
}

create_one : create_tasks Queue.init 8 8 eight ≡ done queue_of_one
unfolding create_tasks queue_len Queue.split_task Queue.split_rows Queue.split_row Queue.push
    Queue.init
create_one = refl

-- From 16 by 8 to 8 by 8.
abbrev sixteen_wide : Resized.RenderCtx ℕ
sixteen_wide = record {
  surf = sides 16 8;
  width = 16;
  height = 8;
  grain = eight;
  queue = Queue.init;
}

resize_callback-fault_example :
    (r : Resized.Resize ℕ) × (Resized.resize_callback number_ops
        (Render.WaitAnswer.already_signaled ∷ [])
        8
        8
        opened
        sixteen_wide
      ≡ done r)
    × (r.window.pbo ≡ Render.pixel_buffer 8 8)
    × (r.context.queue ≡ queue_of_one)
    × (Surface.set_pixels
          (Surface.set_buffer r.context.surf (replicate 64 0))
          0
          (r.context.height - 1)
          1
          (5 ∷ [])
        ≡ fault)
unfolding Render.pixel_buffer
resize_callback-fault_example =
    resize_callback-fault number_ops (Render.WaitAnswer.already_signaled ∷ []) 8 8 opened
      sixteen_wide (replicate 64 0) 5 Settles.signaled create_one (omega arith) (omega arith)
      (omega arith) (omega arith) (omega arith) (omega arith) (omega arith) refl
