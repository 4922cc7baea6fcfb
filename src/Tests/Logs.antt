-- ===== src/Tests/Logs.antt =====
-- The logs at concrete events.
use fedora_firewall_control.Common.{
  true, some, [], ◌∷◌, ◌≡◌, refl, ◌≤◌, ◌+◌, ◌++◌, ◌⊎◌, length, All, arith, ◌<◌,
}
use fedora_firewall_control.Text.{Text, lit}
use fedora_firewall_control.Logging.{LogEvent, LogChannel, LogLevel, format_log_event}
use fedora_firewall_control.Logging.Sanitize.{sanitize_log_value, sanitize_rest}
use fedora_firewall_control.Logging.Sanitize.Bounds.{
  sanitize_log_value-bounds, sanitize_rest-fuel, IsPrintable,
}
use fedora_firewall_control.Logging.Analysis.{parse_entry, is_safe_event_name}
use fedora_firewall_control.Logging.Analysis.RoundTrip.{
  parse_entry-format_log_event, line_of, IsTabless,
}
use fedora_firewall_control.Logging.Engine.{maximum_log_bytes, record_event, rotation}
use fedora_firewall_control.Storage.Reading.{holding}
use fedora_firewall_control.Logging.Engine.Size.{record_event-size, record_event-last, size}

abbrev blocked_event : LogEvent
blocked_event = record {
  channel = LogChannel.security;
  level = LogLevel.warning;
  event = lit "panic-mode";
  detail = lit "key at_abc\tseen";
}

abbrev pub log_time : Text
log_time = lit "2024-01-01T00:00:00Z"

log_time-length : length log_time ≡ 20
unfolding lit
log_time-length = refl

log_time-IsTabless : IsTabless log_time
unfolding lit
log_time-IsTabless = ground arith

blocked_event-safe : is_safe_event_name (sanitize_log_value blocked_event.event 96) ≡ true
unfolding is_safe_event_name sanitize_log_value lit
blocked_event-safe = refl

parse_entry-format_log_event_example :
    (format_log_event log_time blocked_event ≡ line_of log_time blocked_event ++ (b'\n' ∷ []))
    × (parse_entry (line_of log_time blocked_event) blocked_event.channel
        ≡ some (record {
          timestamp = log_time;
          level = blocked_event.level;
          event = sanitize_log_value blocked_event.event 96;
        }))
parse_entry-format_log_event_example =
    parse_entry-format_log_event log_time blocked_event log_time-length log_time-IsTabless
      blocked_event-safe

sanitize_log_value-redacts : sanitize_log_value (lit "at_abc\t") 64 ≡ lit "[REDACTED_IPIFY_KEY] "
unfolding sanitize_log_value lit
sanitize_log_value-redacts = refl

sanitize_log_value-bounds_example :
    (length (sanitize_log_value (lit "at_abc") 8) ≤ 8)
    × All IsPrintable (sanitize_log_value (lit "at_abc") 8)
sanitize_log_value-bounds_example = sanitize_log_value-bounds (lit "at_abc") 8

sanitize_rest-fuel_example :
    sanitize_rest 3 8 (b'a' ∷ b'b' ∷ []) ≡ sanitize_rest 2 8 (b'a' ∷ b'b' ∷ [])
sanitize_rest-fuel_example = sanitize_rest-fuel 3 2 8 (b'a' ∷ b'b' ∷ []) (omega arith) (omega arith)

abbrev old_log : Text
old_log = b'o' ∷ b'l' ∷ b'd' ∷ b'\n' ∷ []

record_event-size_example :
    size (record_event log_time blocked_event (holding old_log)) ≤ maximum_log_bytes
record_event-size_example =
    record_event-size log_time blocked_event (holding old_log) log_time-length

record_event-last_example :
    (record_event log_time blocked_event (holding old_log)
      ≡ holding (old_log ++ format_log_event log_time blocked_event))
    ⊎ ((record_event log_time blocked_event (holding old_log)
          ≡ holding (
              format_log_event log_time (rotation blocked_event)
              ++ format_log_event log_time blocked_event))
        × (maximum_log_bytes < length old_log + length (format_log_event log_time blocked_event)))
record_event-last_example = record_event-last log_time blocked_event old_log
