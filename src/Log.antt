-- ===== src/Log.antt =====
-- tools/log.c: what a message writes to the sink, piece by piece, and the lock around it. The
-- formatted text, the time and the thread are pieces without their content. An `int` level is a
-- number here: none of the levels of log.h is negative.
pub mod Lines
use mdb.Base.{
  ℕ, Bool, true, false, Option, none, some, List, [], ◌∷◌, ◌++◌, if◌then◌else◌, ltb, ◌==◌, ◌||◌,
}

-- The switches of config/config.h.
pub record Config : Type 0 where
  pub multithreading : Bool
  pub color : Bool
  pub time : Bool
  pub date : Bool
  pub thread : Bool
  pub func : Bool
  pub path : Bool

pub record Log : Type 0 where
  pub level : ℕ
  pub verb : ℕ

abbrev pub log_info : ℕ
log_info = 2

pub data Color : Type 0 where
  red green yellow cyan white reset : Color

pub data Piece : Type 0 where
  lock unlock flush : Piece  -- of the mutex, and of the sink
  color : Color → Piece
  time_text date_text thread_text : Piece
  origin : (host : Bool) → Piece
  level_text : (level : ℕ) → Piece
  func_text colon : Piece
  label_text message path_text newline : Piece

unfoldable pub log_color : ℕ → Color
log_color lvl =
    if lvl == 0
    then red
    else if lvl == 3
    then cyan
    else if lvl == 2
    then green
    else if lvl == 4
    then white
    else if lvl == 1
    then yellow
    else if lvl == 5
    then yellow
    else reset

abbrev pub only : Bool → List Piece → List Piece
only true pieces = pieces
only false pieces = []

-- `clock` says whether `time` succeeds.
unfoldable pub append_datetime : Config → Bool → List Piece
append_datetime c clock = only clock (only c.time (time_text ∷ []) ++ only c.date (date_text ∷ []))

-- What stands before and behind the text of any message.
abbrev pub begins : Config → Bool → ℕ → List Piece
begins c clock lvl =
    only c.multithreading (lock ∷ [])
    ++ (only c.color (color (log_color lvl) ∷ [])
        ++ only (c.time || c.date) (append_datetime c clock))

abbrev pub finishes : Config → List Piece
finishes c = newline ∷ flush ∷ only c.multithreading (unlock ∷ [])

-- `__log`
unfoldable pub log : Config → Bool → Log → ℕ → Bool → List Piece
unfolding log_color append_datetime
log c clock l lvl host =
    if ltb l.level lvl
    then []
    else (begins c clock lvl
        ++ (only c.thread (thread_text ∷ [])
            ++ (origin host
                ∷ level_text lvl
                ∷ (if c.func then func_text else colon)
                ∷ message
                ∷ (only c.color (color reset ∷ [])
                    ++ (only c.path (path_text ∷ []) ++ finishes c)))))

-- `_log_verbose`
unfoldable pub log_verbose : Config → Bool → Log → ℕ → ℕ → Bool → List Piece
unfolding log
log_verbose c clock l lvl verbose host = if ltb l.verb verbose then [] else log c clock l lvl host

-- `__log_user_info`
unfoldable pub log_user_info : Config → Bool → Bool → Bool → List Piece
unfolding log_color append_datetime
log_user_info c clock host label =
    begins c clock log_info
    ++ (origin host
        ∷ level_text log_info
        ∷ (only c.color (color reset ∷ [])
            ++ (only label (label_text ∷ []) ++ (message ∷ finishes c))))

-- `_log_say` and `_log_param`
unfoldable pub log_say : Config → Bool → Bool → List Piece
unfolding log_user_info
log_say c clock host = log_user_info c clock host false

unfoldable pub log_param : Config → Bool → Bool → List Piece
unfolding log_user_info
log_param c clock host = log_user_info c clock host true
