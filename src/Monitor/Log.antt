-- ===== src/Monitor/Log.antt =====
-- `SystemMonitor::log` of src/monitor/SystemMonitor.{h,cpp}. The time is the text of `ctime_r`
-- without its line feed; the write and the callback are what the line is handed to.
use akkon.Base.{ℕ, Bool, true, false, not, ◌&&◌, Option, none, some, ◌++◌, if◌then◌else◌}
use akkon.Base.Text.{Text, codes}

pub data LogLevel : Type 0 where
  info warning error debug : LogLevel

-- `static_cast<int>(level)`.
abbrev pub level_number : LogLevel → ℕ
level_number info = 0
level_number warning = 1
level_number error = 2
level_number debug = 3

abbrev pub level_str : LogLevel → Text
level_str info = codes "INFO"
level_str warning = codes "WARNING"
level_str error = codes "ERROR"
level_str debug = codes "DEBUG"

abbrev pub is_error : LogLevel → Bool
is_error info = false
is_error warning = false
is_error error = true
is_error debug = false

-- `s_debug_mode` and the message decide whether there is a line; `none` is the early return.
unfoldable pub log : Bool → LogLevel → Text → Text → Text → Option Text
log debug_mode level time message tracker_id =
    if not debug_mode && not (is_error level)
    then none
    else some (
        codes "["
        ++ (time
            ++ (codes "] ["
                ++ (level_str level
                    ++ (codes "] [" ++ (tracker_id ++ (codes "] " ++ (message ++ codes "\n"))))))))
