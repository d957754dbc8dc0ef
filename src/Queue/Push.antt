-- ===== src/Queue/Push.antt =====
-- `rsched_queue_push` on a queue that stores a list of tasks: when it grows the array, and when
-- it writes outside it.
use mdb.Base.{
  ℕ, suc, ◌+◌, ◌-◌, ◌/◌, ◌^◌, ◌≤◌, ◌<◌, ◌≡◌, refl, ap, ◌∙◌, sym, ◌⊎◌, dec_lt, Option, none, some,
  List, [], ◌∷◌, ◌++◌, map, arith, length, set, take, drop, replicate, length-append, length-map,
  length-take, length-replicate, length-drop, length-set, take-set, take-append_le, take-take,
  take-all, lt→ltb, le→ltb, le→leb, lt→leb, Outcome, done, fault, add32,
}
use mathlib.Core.List.{map-append}
use mdb.Queue.{Task, Queue, realloc, zero_task, resize, store, push}

-- `q` holds exactly the tasks `ts`, in order, in an array of its capacity.
pub record Stores (q : Queue) (ts : List Task) : Type 0 where
  pub sized : length q.tasks ≡ q.capacity
  pub fits : q.length ≤ q.capacity
  pub small : q.capacity < 2 ^ 32
  pub kept : take q.length q.tasks ≡ map some ts

pub length-stored : {q : Queue} {ts : List Task} → Stores q ts → q.length ≡ length ts
length-stored {q} {ts} s = omega (
  arith,
  ap length s.kept,
  length-take q.length q.tasks,
  length-map {0, 0} {B = Option Task} some ts,
  s.sized,
  s.fits,
)

-- What `store` writes.
abbrev pub filled : Queue → Task → Queue
filled q t = record q { tasks = set q.tasks q.length (some t); length = add32 q.length 1 }

pub filled-Stores :
    {q : Queue} {ts : List Task} (t : Task)
    → Stores q ts
    → q.length < q.capacity
    → Stores (filled q t) (ts ++ (t ∷ []))
filled-Stores {q} {ts} t s room = record {
  sized = length-set q.tasks q.length (some t) ∙ s.sized;
  fits = omega (arith, s.small);
  small = s.small;
  kept =
      rw (next, take-set q.tasks q.length (some t) (omega (arith, s.sized)), s.kept)
        (sym (map-append some ts (t ∷ [])));
}
  where
    next : add32 q.length 1 ≡ suc q.length
    next = omega (arith, s.small)

-- Room for one more task without touching the array.
store_lem :
    {q : Queue} {ts : List Task} (t : Task)
    → Stores q ts
    → q.length < q.capacity
    → (store q t ≡ done (filled q t))
unfolding store
store_lem {q} {ts} t s room = rw (lt→ltb q.length (length q.tasks) (omega (arith, s.sized)))

store-fault :
    {q : Queue} {ts : List Task} (t : Task)
    → Stores q ts
    → q.length ≡ q.capacity
    → store q t ≡ fault
unfolding store
store-fault {q} {ts} t s full = rw (le→ltb q.length (length q.tasks) (omega (arith, s.sized)))

-- The queue after `rsched_queue_resize(queue, n, RS_QUE_EXTEND | RS_QUE_ZERO)`.
abbrev grown : Queue → ℕ → Queue
grown q n = record q {
  tasks =
      take q.capacity (realloc (add32 q.capacity n) q.tasks)
      ++ (replicate n (some zero_task)
          ++ drop (q.capacity + n) (realloc (add32 q.capacity n) q.tasks));
  capacity = add32 q.capacity n;
}

module _ {q : Queue} {ts : List Task} (n : ℕ) (s : Stores q ts)
    (big : q.capacity + n < 2 ^ 32) where
  length-realloc : length (realloc (add32 q.capacity n) q.tasks) ≡ q.capacity + n
  length-realloc = omega (
    arith,
    s.sized,
    length-append (take (add32 q.capacity n) q.tasks)
        (replicate {A = Option Task} (add32 q.capacity n - length q.tasks) none),
    length-take (add32 q.capacity n) q.tasks,
    length-replicate {A = Option Task} (add32 q.capacity n - length q.tasks) none,
  )

  -- The old cells stand in front.
  take-grown : take q.capacity (realloc (add32 q.capacity n) q.tasks) ≡ q.tasks
  take-grown =
      take-append_le q.capacity (take (add32 q.capacity n) q.tasks) _
        (omega (arith, s.sized, length-take (add32 q.capacity n) q.tasks))
      ∙ take-take q.capacity (add32 q.capacity n) q.tasks (omega arith)
      ∙ take-all q.capacity q.tasks (omega (arith, s.sized))

  grown-Stores : Stores (grown q n) ts
  grown-Stores = record {
    sized =
        rw (length-append, length-append, take-grown)
          (omega (
            arith,
            s.sized,
            length-realloc,
            length-replicate n (some zero_task),
            length-drop (q.capacity + n) (realloc (add32 q.capacity n) q.tasks),
          ));
    fits = omega (arith, s.fits);
    small = omega arith;
    kept =
        rw take-grown (take-append_le q.length q.tasks _ (omega (arith, s.sized, s.fits)) ∙ s.kept);
  }

  resize_lem : resize q n 6 ≡ done (grown q n)
  unfolding resize
  resize_lem = rw (
      le→leb (q.capacity + n) (length (realloc (add32 q.capacity n) q.tasks))
        (omega (arith, length-realloc)))

pub push_room :
    {q : Queue} {ts : List Task} (t : Task)
    → Stores q ts
    → q.length < q.capacity
    → push q t ≡ done (filled q t)
unfolding push
push_room {q} t s room = rw (lt→leb q.capacity q.length room) (store_lem t s room)

push_full :
    {q : Queue} {ts : List Task} (t : Task)
    → Stores q ts
    → q.length ≡ q.capacity
    → q.capacity + q.capacity / 4 < 2 ^ 32
    → push q t ≡ store (grown q (q.capacity / 4)) t
unfolding push
push_full {q} t s full big =
    rw (le→leb q.capacity q.length (omega arith), resize_lem (q.capacity / 4) s big)

-- What a successful push of `t` onto `q` leads to.
pub record Pushed (q : Queue) (ts : List Task) (r : Outcome Queue) : Type 0 where
  pub queue : Queue
  pub returns : r ≡ done queue
  pub stores : Stores queue ts
  pub room : q.capacity ≤ queue.capacity
  pub index : queue.cur_task_idx ≡ q.cur_task_idx

push_grows :
    {q : Queue} {ts : List Task} (t : Task)
    → Stores q ts
    → q.length ≡ q.capacity
    → 4 ≤ q.capacity
    → q.length < 2 ^ 31
    → Pushed q (ts ++ (t ∷ [])) (push q t)
push_grows {q} t s full four small = record {
  queue = filled (grown q n) t;
  returns = push_full t s full big ∙ store_lem t (grown-Stores n s big) (omega arith);
  stores = filled-Stores t (grown-Stores n s big) (omega arith);
  room = omega arith;
  index = refl;
}
  where
    n : ℕ
    n = q.capacity / 4

    big : q.capacity + n < 2 ^ 32
    big = omega arith

-- A push onto a queue of fewer than 2^31 tasks with room, or with four cells at least, returns,
-- appends its task, keeps the others in order and takes none.
pub push-Pushed :
    {q : Queue} {ts : List Task} (t : Task)
    → Stores q ts
    → (q.length < q.capacity) ⊎ (4 ≤ q.capacity)
    → q.length < 2 ^ 31
    → Pushed q (ts ++ (t ∷ [])) (push q t)
push-Pushed {q} t s room small = elim (dec_lt q.length q.capacity) [
  | yes h ↦ record {
    queue = filled q t;
    returns = push_room t s h;
    stores = filled-Stores t s h;
    room = omega arith;
    index = refl;
  }
  | no h ↦ push_grows t s (omega (arith, s.fits)) (omega arith) small
]

-- A full queue of fewer than four cells does not grow: the push writes past the array.
pub push-fault :
    {q : Queue} {ts : List Task} (t : Task)
    → Stores q ts
    → q.length ≡ q.capacity
    → q.capacity < 4
    → push q t ≡ fault
push-fault {q} t s full few =
    push_full t s full (omega arith)
    ∙ store-fault t (grown-Stores (q.capacity / 4) s (omega arith)) (omega arith)
