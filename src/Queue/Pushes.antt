-- ===== src/Queue/Pushes.antt =====
-- Pushing a list of tasks, one `rsched_queue_push` after another.
use mdb.Base.{
  ◌+◌, ◌^◌, ◌≤◌, ◌<◌, ◌≡◌, refl, sym, ◌∙◌, ◌⊎◌, dec_lt, List, [], ◌∷◌, ◌++◌, arith, length,
  length-append, Outcome, done, fault, ◌>>=◌, >>=_assoc,
}
use mathlib.Core.Path.{fun_ext}
use mathlib.Core.List.{append-nil, append_assoc}
use mdb.Queue.{Task, Queue, push}
use mdb.Queue.Push.{
  Stores, Pushed, length-stored, push-Pushed, push-fault, push_room, filled, filled-Stores,
}

unfoldable pub pushes : Queue → List Task → Outcome Queue
pushes q [] = done q
pushes q (t ∷ ts) = push q t >>= λ q'. pushes q' ts

pub pushes-append :
    (q : Queue) (ts us : List Task) → pushes q (ts ++ us) ≡ (pushes q ts >>= λ q'. pushes q' us)
unfolding pushes
pushes-append q [] us = refl
pushes-append q (t ∷ ts) us =
    rw (fun_ext (λ q'. pushes-append q' ts us)) (sym (>>=_assoc (push q t) _ _))

-- One push, and then the others.
Pushed-trans :
    {q : Queue} {ts us : List Task} {r : Outcome Queue} (f : Queue → Outcome Queue)
    (p : Pushed q ts r)
    → Pushed p.queue us (f p.queue)
    → Pushed q us (r >>= f)
Pushed-trans f p rest = record {
  queue = rest.queue;
  returns = rw p.returns rest.returns;
  stores = rest.stores;
  room = omega (arith, p.room, rest.room);
  index = rest.index ∙ p.index;
}

-- Where the array is large enough for all, or has four cells and can grow, and there are no more
-- than 2^31 tasks in all: a series of pushes returns, and every task of the list is stored behind
-- the others, in order.
pub pushes-Pushed :
    (us : List Task) {q : Queue} {ts : List Task}
    → Stores q ts
    → (length ts + length us ≤ q.capacity) ⊎ (4 ≤ q.capacity)
    → length ts + length us ≤ 2 ^ 31
    → Pushed q (ts ++ us) (pushes q us)
unfolding pushes
pushes-Pushed [] {q} {ts} s room small = record {
  queue = q;
  returns = refl;
  stores = rw append-nil s;
  room = omega arith;
  index = refl;
}
pushes-Pushed (u ∷ us) {q} {ts} s room small =
    let count = length-append ts (u ∷ []) in
    let p = push-Pushed u s (omega (arith, length-stored s)) (omega (arith, length-stored s)) in
    let rest =
      pushes-Pushed us {q = p.queue} {ts = ts ++ (u ∷ [])} p.stores (omega (arith, p.room, count))
        (omega (arith, count)) in
    Pushed-trans _ p (rw append_assoc at rest)

-- A list that is too long for an array of fewer than four cells is written past its end.
pub pushes-fault :
    (us : List Task) {q : Queue} {ts : List Task}
    → Stores q ts
    → q.capacity < 4
    → q.capacity < length ts + length us
    → pushes q us ≡ fault
unfolding pushes
pushes-fault [] {q} {ts} s few long = absurd (omega (arith, length-stored s, s.fits))
pushes-fault (u ∷ us) {q} {ts} s few long = elim (dec_lt q.length q.capacity) [
  | yes h ↦ rw (push_room u s h) (
      pushes-fault us {q = filled q u} {ts = ts ++ (u ∷ [])} (filled-Stores u s h) few
        (omega (arith, length-append ts (u ∷ []))))
  | no h ↦ rw (push-fault u s (omega (arith, s.fits)) few)
]
