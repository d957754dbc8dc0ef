-- ===== src/Log/Lines.antt =====
-- Each message is one line of its own.
use mdb.Base.{
  ℕ, ◌≡◌, refl, Bool, true, false, Option, none, some, List, [], ◌∷◌, if◌then◌else◌, ltb, ◌&&◌,
  ◌||◌, not, suc, arith,
}
use mdb.Log.{
  Config, Log, Color, reset, Piece, lock, unlock, flush, color, newline, log_color, append_datetime,
  log, log_verbose, log_user_info, log_say, log_param,
}

-- What holds of the sink between two pieces: who holds the mutex, a line that has begun, a color that
-- is on, and what has not been flushed.
pub record Sink : Type 0 where
  pub locked : Bool
  pub begun : Bool
  pub colored : Bool
  pub unflushed : Bool

abbrev pub is_reset : Color → Bool
is_reset reset = true
is_reset _ = false

abbrev pub quiet : Sink
quiet = record { locked = false; begun = false; colored = false; unflushed = false }

-- One piece. With `guarded` all is written under the mutex, which is not taken twice, and is left only
-- behind a whole line that has been flushed.
abbrev pub write : Bool → Piece → Sink → Option Sink
write guarded lock s = if s.locked then none else some (record s { locked = true })
write guarded unlock s =
    if s.locked && not (s.begun || (s.colored || s.unflushed))
    then some (record s { locked = false })
    else none
write guarded newline s =
    if guarded && not s.locked then none else some (record s { begun = false; unflushed = true })
write guarded flush s =
    if guarded && not s.locked then none else some (record s { unflushed = false })
write guarded (color c) s =
    if guarded && not s.locked
    then none
    else some (record s { begun = true; colored = not (is_reset c); unflushed = true })
write guarded p s =
    if guarded && not s.locked then none else some (record s { begun = true; unflushed = true })

abbrev pub writes : Bool → List Piece → Sink → Option Sink
writes guarded [] s = some s
writes guarded (p ∷ ps) s = elim (write guarded p s) [
  | none ↦ none
  | some s' ↦ writes guarded ps s'
]

abbrev pub newlines : List Piece → ℕ
newlines [] = 0
newlines (newline ∷ ps) = suc (newlines ps)
newlines (_ ∷ ps) = newlines ps

-- A message of so many lines, whole and flushed, with its color taken back, and under the mutex if
-- there is one.
abbrev pub IsWhole : Config → ℕ → List Piece → Type 0
IsWhole c n ps = (writes c.multithreading ps quiet ≡ some quiet) × (newlines ps ≡ n)

say-IsWhole :
    (m co t d th f p clock host label : Bool)
    → let c : Config = record {
      multithreading = m;
      color = co;
      time = t;
      date = d;
      thread = th;
      func = f;
      path = p;
    } in
      IsWhole c 1 (log_user_info c clock host label)
unfolding log_user_info append_datetime log_color
say-IsWhole m co t d th f p clock host label = ground arith

log-IsWhole :
    (m co t d th f p clock host : Bool) (l : Log) (lvl : ℕ)
    → let c : Config = record {
      multithreading = m;
      color = co;
      time = t;
      date = d;
      thread = th;
      func = f;
      path = p;
    } in
      IsWhole c (if ltb l.level lvl then 0 else 1) (log c clock l lvl host)
unfolding log append_datetime
log-IsWhole m co t d th f p clock host l lvl = ground arith

-- For any switches, and whether or not the clock answers: `_log` writes one message just if its
-- level is not above that of the log, `_log_verbose` just if its verbosity is not either, and
-- `_log_say` and `_log_param` always. Each message is one line, with its color taken back at the
-- end, flushed, and, with multithreading, written under the mutex from its first piece to its last.
pub messages_lem :
    (c : Config) (clock : Bool) (l : Log) (lvl verbose : ℕ) (host : Bool)
    → IsWhole c (if ltb l.level lvl then 0 else 1) (log c clock l lvl host)
      × IsWhole c
          (if ltb l.verb verbose || ltb l.level lvl then 0 else 1)
          (log_verbose c clock l lvl verbose host)
      × IsWhole c 1 (log_say c clock host)
      × IsWhole c 1 (log_param c clock host)
unfolding log_verbose log_say log_param
messages_lem c clock l lvl verbose host =
    let whole =
      log-IsWhole c.multithreading c.color c.time c.date c.thread c.func c.path clock host l lvl in
    let say =
      say-IsWhole c.multithreading c.color c.time c.date c.thread c.func c.path clock host in
    (whole, verbose_too (ltb l.verb verbose) whole, say false, say true)
  where
    verbose_too :
        (b : Bool)
        → IsWhole c (if ltb l.level lvl then 0 else 1) (log c clock l lvl host)
        → IsWhole c
            (if b || ltb l.level lvl then 0 else 1)
            (if b then [] else log c clock l lvl host)
    verbose_too true w = (refl, refl)
    verbose_too false w = w
