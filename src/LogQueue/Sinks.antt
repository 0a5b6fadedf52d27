-- ===== src/LogQueue/Sinks.antt =====
-- batchkit/logger.py: the levels, the methods for each of them, and where the listener writes.
use batch_processing_kit.Prelude.{ℕ, Bool, ◌||◌, List, Option, none, some, String, if◌then◌else◌}
use batch_processing_kit.LogQueue.{Pickle, LogQueue, Put, log}

pub data LogLevel : Type 0 where
  critical_level error_level warning_level info_level debug_level notset_level : LogLevel

-- The numbers of Python's logging; FATAL and WARN are other names of CRITICAL and WARNING.
abbrev pub level_value : LogLevel → ℕ
level_value critical_level = 50
level_value error_level = 40
level_value warning_level = 30
level_value info_level = 20
level_value debug_level = 10
level_value notset_level = 0

module _ (p : Pickle) (msg : List ℕ) (q : LogQueue) where
  unfoldable pub debug : Put
  debug = log p (level_value debug_level) msg q

  unfoldable pub info : Put
  info = log p (level_value info_level) msg q

  unfoldable pub warning : Put
  warning = log p (level_value warning_level) msg q

  unfoldable pub error : Put
  error = log p (level_value error_level) msg q

  unfoldable pub critical : Put
  critical = log p (level_value critical_level) msg q

  unfoldable pub fatal : Put
  fatal = log p (level_value critical_level) msg q

-- The handlers of the listener: the console's level, and the path and level of the log file.
pub record Sinks : Type 0 where
  pub console_level : ℕ
  pub file : Option (String × ℕ)

-- `__listener_process_configure_logging`, by whether the folder is there and whether it can be made;
-- `none` is the exit of the process.
unfoldable pub configure_logging :
    (String → Bool)
    → (String → Bool)
    → (String → String → String)
    → Option String
    → LogLevel
    → LogLevel
    → Option Sinks
configure_logging is_dir makes_dir join none console_log_level file_log_level =
    some (record { console_level = level_value console_log_level; file = none })
configure_logging is_dir makes_dir join (some folder) console_log_level file_log_level =
    if is_dir folder || makes_dir folder
    then some (record {
      console_level = level_value console_log_level;
      file = some (join folder "run.log", level_value file_log_level);
    })
    else none
