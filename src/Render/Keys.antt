-- ===== src/Render/Keys.antt =====
-- Where the keys go that are polled in the window.
use mdb.Base.{
  ◌≡◌, refl, ap, sym, ◌∙◌, Bool, false, ◌==◌, ◌&&◌, ◌||◌, List, [], ◌∷◌, arith, if◌then◌else◌,
}
use mdb.View.{FloatOps, View, Event, keyboard, Key, Action, event_handler, events}
use mdb.Render.{
  key_code, is_press, is_down, Window, user_key, scale_exposure, key_callback, poll_events,
}

-- The window keeps for itself the press of Escape, and 5 and 6 unless they are released.
abbrev pub kept : Key → Action → Bool
kept key action =
    (key_code key == 256 && is_press action)
    || (is_down action && (key_code key == 53 || key_code key == 54))

-- What is left for the kernel, as its events.
abbrev pub handed_on : List (Key × Action) → List Event
handed_on [] = []
handed_on ((key, action) ∷ keys) =
    if kept key action
    then handed_on keys
    else keyboard (record { key = key; action = action }) ∷ handed_on keys

abbrev pub is_quit : Key → Action → Bool
is_quit key action = key_code key == 256 && is_press action

abbrev pub quits : List (Key × Action) → Bool
quits [] = false
quits ((key, action) ∷ keys) = is_quit key action || quits keys

module _ {F : Type 0} (ops : FloatOps F) where
  key-view :
      (key : Key) (action : Action) (w : Window F)
      → (key_callback ops key action w).view ≡ (
          if kept key action
          then w.view
          else (event_handler ops (keyboard (record { key = key; action = action })) w.view).1)
  unfolding key_code key_callback user_key scale_exposure
  key-view key action w = ground arith

  key-close :
      (key : Key) (action : Action) (w : Window F)
      → (key_callback ops key action w).should_close ≡ (is_quit key action || w.should_close)
  unfolding key_code key_callback user_key scale_exposure
  key-close key action w = ground arith

  handed_on-view :
      (key : Key) (action : Action) (es : List Event) (v : View F)
      → events ops
          (if kept key action then es else keyboard (record { key = key; action = action }) ∷ es)
          v
        ≡ events ops es (
            if kept key action
            then v
            else (event_handler ops (keyboard (record { key = key; action = action })) v).1)
  unfolding events key_code
  handed_on-view key action es v = ground arith

  -- For any keys polled in one frame: the view of the kernel is afterwards what the kernel makes of
  -- those keys, in order, that the window does not keep for itself, and the window is to close just
  -- if it was so before or Escape has been pressed.
  pub poll_events_lem :
      (keys : List (Key × Action)) (w : Window F)
      → ((poll_events ops keys w).view ≡ events ops (handed_on keys) w.view)
        × ((poll_events ops keys w).should_close ≡ (quits keys || w.should_close))
  unfolding poll_events events
  poll_events_lem [] w = (refl, refl)
  poll_events_lem ((key, action) ∷ keys) w =
      let ih = poll_events_lem keys (key_callback ops key action w) in
      (
        ih.0
            ∙ ap (events ops (handed_on keys)) (key-view key action w)
            ∙ sym (handed_on-view key action (handed_on keys) w.view),
        ground (arith, ih.1, key-close key action w),
      )
