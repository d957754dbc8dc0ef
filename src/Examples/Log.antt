-- ===== src/Examples/Log.antt =====
-- Messages of tools/log.c.
use mdb.Base.{true}
use mdb.Log
use mdb.Log.Lines.{IsWhole, messages_lem}

abbrev all_on : Log.Config
all_on = record {
  multithreading = true;
  color = true;
  time = true;
  date = true;
  thread = true;
  func = true;
  path = true;
}

-- As `main` sets the log with --silent.
abbrev silent : Log.Log
silent = record { level = 0; verb = 2 }

-- A warning, which is not written.
messages_lem_example :
    IsWhole all_on 0 (Log.log all_on true silent 1 true)
    × IsWhole all_on 0 (Log.log_verbose all_on true silent 1 2 true)
    × IsWhole all_on 1 (Log.log_say all_on true true)
    × IsWhole all_on 1 (Log.log_param all_on true true)
messages_lem_example = messages_lem all_on true silent 1 2 true
