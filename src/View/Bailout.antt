-- ===== src/View/Bailout.antt =====
-- How the keys 3 and 4 move the bailout of `mdb_kernel_common.c`.
use mdb.Base.{
  dec_lt, ◌++◌, ℕ, zero, suc, ◌+◌, ◌^◌, ◌≤◌, ◌<◌, ◌≡◌, ◌⊎◌, List, [], ◌∷◌, arith, replicate,
}
use mdb.View.{
  FloatOps, View, Event, keyboard, unknown, Action, press, repeat, release, Key, key_3, key_4,
  bailout_get_mod, press_key, event_keyboard, event_handler, events,
}

mod_cases :
    (b : ℕ)
    → 1 ≤ b
    → ((b ≡ 1) × (bailout_get_mod b ≡ 0))
      ⊎ ((1 < b) × (1 ≤ bailout_get_mod b) × (bailout_get_mod b < b) × (bailout_get_mod b ≤ 512))
unfolding bailout_get_mod
mod_cases b h = ground arith

-- Still 1 or above, and never from 1 to anything else.
record Moved (b b' : ℕ) : Type 0 where
  low : 1 ≤ b'
  stuck : b ≡ 1 → b' ≡ 1

abbrev pub held : Key → Event
held k = keyboard (record { key = k; action = repeat })

module _ {F : Type 0} (ops : FloatOps F) where
  press_key-Moved :
      (k : Key) (v : View F)
      → 1 ≤ v.bailout
      → v.bailout + 512 < 2 ^ 32
      → Moved v.bailout (press_key ops k v).1.bailout
  unfolding press_key
  press_key-Moved key_3 v p h =
      let m = mod_cases v.bailout p in
      record { low = omega (arith, m); stuck = λ e. omega (arith, m) }
  press_key-Moved key_4 v p h =
      let m = mod_cases v.bailout p in
      record { low = omega (arith, m); stuck = λ e. omega (arith, m) }
  press_key-Moved _ v p h = record { low = p; stuck = λ e. e }

  stays : (v : View F) → 1 ≤ v.bailout → Moved v.bailout v.bailout
  stays v p = record { low = p; stuck = λ e. e }

  keyboard-Moved :
      (k : Key) (a : Action) (v : View F)
      → 1 ≤ v.bailout
      → v.bailout + 512 < 2 ^ 32
      → Moved v.bailout (event_keyboard ops (record { key = k; action = a }) v).1.bailout
  unfolding event_keyboard
  keyboard-Moved k release v p h = stays v p
  keyboard-Moved k press v p h = press_key-Moved k v p h
  keyboard-Moved k repeat v p h = press_key-Moved k v p h

  event-Moved :
      (e : Event) (v : View F)
      → 1 ≤ v.bailout
      → v.bailout + 512 < 2 ^ 32
      → Moved v.bailout (event_handler ops e v).1.bailout
  unfolding event_handler
  event-Moved (keyboard e) v p h = keyboard-Moved e.key e.action v p h
  event-Moved (unknown type) v p h = stays v p

  -- A bailout of 1 is there to stay: no series of events changes it.
  pub events-stuck : (es : List Event) (v : View F) → v.bailout ≡ 1 → (events ops es v).bailout ≡ 1
  unfolding events
  events-stuck [] v e = e
  events-stuck (x ∷ es) v e =
      events-stuck es (event_handler ops x v).1
        ((event-Moved x v (omega arith) (omega arith)).stuck e)

  -- One round of key 3 or 4 moves the bailout, unless it is 1.
  lowers :
      (v : View F)
      → 1 < v.bailout
      → v.bailout < 2 ^ 32
      → (1 ≤ (event_handler ops (held key_3) v).1.bailout)
        × ((event_handler ops (held key_3) v).1.bailout < v.bailout)
  unfolding event_handler event_keyboard press_key
  lowers v p h = omega (arith, mod_cases v.bailout (omega arith))

  -- Holding key 3 brings any bailout from 1 to 2^32 - 1 down to 1, in no more events than it has
  -- units to lose, and it stays there whatever events follow.
  pub held_down :
      (n : ℕ) (es : List Event) (v : View F)
      → 1 ≤ v.bailout
      → v.bailout < 2 ^ 32
      → v.bailout ≤ n + 1
      → (events ops (replicate n (held key_3) ++ es) v).bailout ≡ 1
  unfolding events
  held_down zero es v p w h = events-stuck es v (omega arith)
  held_down (suc n) es v p w h = elim (dec_lt 1 v.bailout) [
    | yes more ↦
        (let l = lowers v more w in
          held_down n es (event_handler ops (held key_3) v).1 (omega (arith, l)) (omega (arith, l))
            (omega (arith, l)))
    | no one ↦ events-stuck (replicate (suc n) (held key_3) ++ es) v (omega arith)
  ]
