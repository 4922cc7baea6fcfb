-- ===== src/Logging/Engine.antt =====
-- `LoggingEngine::record` of src/logging/engine/logging_engine.cpp over the file of one channel.
-- The paths and the lock are taken to have been acquired, and a write that is tried succeeds; the
-- time is an argument.
pub mod Size
use fedora_firewall_control.Common.{
  ℕ, ◌+◌, ◌*◌, Bool, not, ◌&&◌, ◌||◌, Option, none, some, [], ◌++◌, ltb, if◌then◌else◌, length,
  true, false,
}
use fedora_firewall_control.Storage.Reading.{
  PrivateFile, PrivateRead, absent, refused, holding, read_private_file,
}
use fedora_firewall_control.Text.{Text, lit, text_eq}
use fedora_firewall_control.Logging.{LogEvent, LogLevel, info, format_log_event, error}

abbrev pub maximum_log_bytes : ℕ
maximum_log_bytes = 512 * 1024

abbrev pub rotation : LogEvent → LogEvent
rotation e = record e {
  level = info;
  event = lit "log-rotation";
  detail = lit "retained log reached 512 KiB limit";
}

-- What a write appends to.
abbrev text_of : PrivateFile → Text
text_of absent = []
text_of (refused why) = []
text_of (holding content) = content

unfoldable pub is_oversized : PrivateRead → Bool
unfolding text_eq
is_oversized found = text_eq found.error (lit "storage file exceeds safe size limit")

-- The file after the event, or the error of the read.
unfoldable pub write_entry : Text → Text → PrivateRead → PrivateFile → PrivateFile
unfolding is_oversized text_eq
write_entry notice entry found file =
    if not found.succeeded
      && not (text_eq found.error (lit "No such file or directory"))
      && not (is_oversized found)
    then file
    else if is_oversized found || ltb maximum_log_bytes (length found.text + length entry)
    then holding (notice ++ entry)
    else holding (text_of file ++ entry)

unfoldable pub record_event : Text → LogEvent → PrivateFile → PrivateFile
unfolding write_entry read_private_file format_log_event
record_event utc_log_timestamp e file =
    write_entry (format_log_event utc_log_timestamp (rotation e))
      (format_log_event utc_log_timestamp e) (read_private_file maximum_log_bytes file) file
