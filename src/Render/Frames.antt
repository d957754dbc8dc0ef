-- ===== src/Render/Frames.antt =====
-- The calls of a series of frames of `ogl_render_render_loop`.
use mdb.Base.{◌+◌, ◌≡◌, some, List, [], ◌∷◌, Outcome, done}
use mdb.Render.{Window, Frame, Shown}
use mdb.Render.Ordered.{Reads, tracks, Settles, Covered, fences, deletes, alive}

-- The driver answers both waits of each frame in the end.
abbrev pub AllAnswered : List Frame → Type 0
AllAnswered [] = Unit
AllAnswered (f ∷ fs) = (Settles f.update_answers × Settles f.wait_answers) × AllAnswered fs

-- What a series of frames comes to, from what is known of the reads before it.
pub record Drawn {F S : Type 0} (r : Reads) (w : Window F) (o : Outcome (Shown F S)) : Type 0 where
  pub shown : Shown F S
  pub returns : o ≡ done shown
  pub reads : Reads
  pub ordered : tracks r shown.calls ≡ some reads
  pub covered : Covered reads shown.window.sync.handle
  pub balanced :
      fences shown.calls + alive w.sync.handle
      ≡ deletes shown.calls + alive shown.window.sync.handle
