-- ===== src/Logging.antt =====
-- src/logging/core/logging_core.cpp and src/logging/utils/logging_utils.cpp: the structured log
-- line. The UTC time is an argument.
pub mod Analysis
pub mod Summary
pub mod Engine
pub mod Sanitize
use fedora_firewall_control.Common.{[], ◌∷◌, ◌++◌}
use fedora_firewall_control.Text.{Text, lit}
use fedora_firewall_control.Logging.Sanitize.{sanitize_log_value}

pub data LogChannel : Type 0 where
  operations audit security error : LogChannel

pub data LogLevel : Type 0 where
  info warning error : LogLevel

pub record LogEvent : Type 0 where
  pub channel : LogChannel
  pub level : LogLevel
  pub event : Text
  pub detail : Text

unfoldable pub channel_text : LogChannel → Text
channel_text operations = lit "operations"
channel_text audit = lit "audit"
channel_text security = lit "security"
channel_text LogChannel.error = lit "error"

unfoldable pub level_text : LogLevel → Text
level_text info = lit "INFO"
level_text warning = lit "WARN"
level_text LogLevel.error = lit "ERROR"

unfoldable pub log_file_name : LogChannel → Text
unfolding channel_text
log_file_name channel = channel_text channel ++ lit ".log"

abbrev tab : Text
tab = b'\t' ∷ []

-- `format_log_event` at a time.
unfoldable pub format_log_event : Text → LogEvent → Text
unfolding level_text channel_text sanitize_log_value
format_log_event utc_log_timestamp e =
    utc_log_timestamp
    ++ (b'\t'
        ∷ (level_text e.level
            ++ (b'\t'
                ∷ (channel_text e.channel
                    ++ (b'\t'
                        ∷ (sanitize_log_value e.event 96
                            ++ (b'\t' ∷ (sanitize_log_value e.detail 512 ++ (b'\n' ∷ [])))))))))
