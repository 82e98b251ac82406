-- ===== src/Log/Direct.antt =====
-- csrc/log.cpp without CONFIG_LRING_ENABLE, as by default: the log goes straight to its file.
use my_diff.Base.{ℕ, Bool, Option}
use my_diff.Log.{Stream, Label, open_log, announced}

-- `log_init`: `log_dt`, and the name that the message shows.
pub log_init : (ℕ → Bool) → Option ℕ → Option Stream × Label
unfolding open_log announced
log_init fopen filename =
    let log_dt = open_log fopen filename in (log_dt, announced log_dt filename)
