-- ===== src/Lib.antt =====
-- Models of mdb, a renderer of the Mandelbrot set that spreads its work over threads, and the
-- theorems about them.
--
-- The command line sets the sides of the surface and of the blocks into which it is cut. The
-- scheduler holds the blocks in a queue from which the host thread and its workers take them, and
-- calls a kernel module for each of them, which writes its pixels to the surface. The host starts
-- and stops the workers by signals, and reads their states. A benchmark keeps the times of the
-- blocks.
--
--   Base       tests, C arrays as lists, outcomes of code that may fault, 32-bit words
--   Queue      sched/rsched_queue.c and .h: init, destroy, resize, push, split_task, requeue
--              (Push, Pushes: what is stored; Grid: what split_task is meant to make; Split)
--   Tasks      sched/rsched.c: create_tasks is rsched_create_tasks (Create, Blocks, Cover)
--   Claim      sched/rsched_queue.h: rsched_queue_pop as a step relation on any number of threads
--              (Invariant, Overrun)
--   Worker     sched/rsched_worker.c and .h: a worker thread and its host, an atomic access at a
--              time; worker_step is rsched_worker with its loop and its wait, host_step is
--              rsched_send_worker_sig and rsched_get_worker_state (System, Invariant, Lost,
--              Delivered; Serving: workers that have only been told to start)
--   Sched      sched/rsched.c, and the setting up of workers in sched/rsched_worker.c: create is
--              rsched_create, shutdown, host_yield, set_user_context; a worker that never ends is an
--              answer of the system, with which shutdown hangs (Wait, Yield; Balance, Create, Held,
--              Ends: what is taken and given back; Affinity)
--   Crew       Sched's host_yield with all workers and the queue, an atomic access at a time: Step is
--              built of the steps of Worker and Claim, for workers with a function set that have not
--              been told to leave (Held, Queued, Invariant, Moves, Kept, Done; Rounds: the rounds of
--              benchmark_run_kernel in app/benchmark.c)
--   Surface    surface/surface.c and .h: create, destroy, set_buffer, set_pixels (Pixels, Memory,
--              Outside; Paint: runs that draw a part of an image)
--   Mandelbrot kernel_modules/mandelbrot: Generic is mdb_generic.c, Vec8 and Native mdb_native.c,
--              whose lanes are functions from the eight places; NativeVec is mdb_native_vec.c,
--              Avx2 and Avx2Fma are mdb_avx2.c and
--              mdb_avx2_fma.c, on any vectors with the intrinsics (Scan: the loops over a block;
--              Lanes and Drawn: a lane against the scalar loop; Agreement: NativeVec against Native;
--              Columns: what the AVX2 loops reach)
--   Frame      the queue, the threads that take indices from it, a kernel and a surface together;
--              run_tasks is the calls of `proc_fun` in sched/rsched.c and sched/rsched_worker.c, one
--              after another (Order, Image, Yield)
--   Hist       tools/hist.c: perf_hist_init, perf_hist_bsearch, perf_hist_add (Search, Linear, Counts)
--   Timer      tools/timer.h: differences of times, and how they are printed (Digits)
--   Profile    sched/rsched_profile.h and .c: profile_start, profile_stop, and the numbers that
--              print_worker_stats prints (Samples)
--   Loader     kernel/mdb_kernel.c: mdb_kernel_create and mdb_kernel_destroy (Balance)
--   Features   tools/cpu_features.c: cpu_check_features, cpu_features_to_str (Masks, Text)
--   View       kernel_modules/mandelbrot/mdb_kernel_common.c: the view and its keys (Bailout), and
--              the texts that a kernel tells of itself, with metadata_copy of
--              kernel_modules/kernel_module.h (Metadata)
--   Bench      app/benchmark.c: benchmark_proc_fun as a step relation (Summary, Attained)
--   Args       tools/args_parser.c: parse_int, parse_block_size and the other parsers; Libc what they
--              use of the C library; Profile the options of --rsched; Options parse_opt and
--              args_parse (Numbers, KeyVal, Ensures, Ending, Bounds, Geometry)
--   Config     app/main.c: configure_rsched_options (Ranges)
--   Render     render/ogl_render.c, ogl_pixel_buffer.c and ogl_buffer_sync.c with the callbacks of
--              app/render.c: keys, the loop over frames, the mapped buffer and its fences (Ordered,
--              Frames, Keys, Target, Resized, Update)
--   App        app/main.c: main, run_benchmark_mode, run_render_mode (Unwound)
--   Log        tools/log.c: the pieces that a message writes (Lines)
--   Examples   the theorems at concrete inputs
--
-- Conventions. Unsigned words are native numbers, reduced modulo 2^32 or 2^64 where the source's
-- arithmetic can wrap; an `int` that is only compared is its bit pattern. An access outside an
-- object is the outcome `fault`, or `overflow` in the command line. Loops whose end is not plain
-- run on fuel, with `timeout` where it is spent: `split_task` has a round for each coordinate and
-- one more, `bsearch` one for each bin and one more, and `hist_opts` one for each character and one
-- more, and these are enough. The loops of a kernel have 2^32 rounds of fuel, as many as a counter
-- of 32 bits can have before it repeats. The options that `argp_parse` hands to `parse_opt` are a
-- list. Atomic accesses take place one after another, without the reorderings that the acquire and release orders
-- of tools/atomic.h leave open across variables; the source's compare-exchange is the weak one, and
-- may fail without cause where a model is `weak` or `fails`.
--
-- Floats are not modelled: float types and their operations are parameters, each a function of
-- the values of its operands, and so are the bounds of logarithmic bins; the rounding that
-- -ffast-math or the x87 registers leave to the compiler is not looked into. The blocks that
-- threads draw at the same time are drawn one after another in any order. Not modelled: printing
-- and the text of messages, the shaders and the square that the image is drawn on, which are
-- calls of OpenGL only, the image writer, which is third-party code, and the assembly kernel.
-- Memory is taken to be available where a function of the source does not test for it.
pub mod Base
pub mod Queue
pub mod Tasks
pub mod Claim
pub mod Worker
pub mod Sched
pub mod Crew
pub mod Surface
pub mod Mandelbrot
pub mod Frame
pub mod Hist
pub mod Timer
pub mod Profile
pub mod Loader
pub mod View
pub mod Render
pub mod Bench
pub mod Args
pub mod Config
pub mod App
pub mod Log
pub mod Features
pub mod Examples
