-- ===== src/Logging/Analysis/RoundTrip.antt =====
-- A line that the logger wrote is read back.
use mathlib.Core.List.{append_assoc}
use fedora_firewall_control.Common.{◌≡◌, ◌≢◌, arith, [], ◌∷◌, ◌++◌, true, refl, All, length, some}
use fedora_firewall_control.Text.{Text, lit, text_eq}
use fedora_firewall_control.Text.Laws.{text_eq_refl}
use fedora_firewall_control.Logging.{
  LogChannel, LogLevel, LogEvent, channel_text, level_text, format_log_event, info, operations,
  audit, security, warning,
}
use fedora_firewall_control.Logging.Sanitize.{sanitize_log_value}
use fedora_firewall_control.Logging.Sanitize.Bounds.{sanitize_log_value-bounds, IsPrintable}
use fedora_firewall_control.Logging.Analysis.{
  parse_entry, parse_fields, split_tabs, parse_level, is_safe_event_name, entry_of,
}

-- No byte of the text is a tab.
abbrev pub IsTabless : Text → Type 0
IsTabless s = All (λ c. c ≢ b'\t') s

IsPrintable-IsTabless : (s : Text) → All IsPrintable s → IsTabless s
IsPrintable-IsTabless [] h = tt
IsPrintable-IsTabless (c ∷ s) ((h, k), rest) = (λ e. omega arith, IsPrintable-IsTabless s rest)

pub split_tabs-append :
    (s rest : Text) → IsTabless s → split_tabs (s ++ (b'\t' ∷ rest)) ≡ s ∷ split_tabs rest
unfolding split_tabs
split_tabs-append [] rest h = refl
split_tabs-append (c ∷ s) rest (h, k) = ground (arith, split_tabs-append s rest k)

pub split_tabs-last : (s : Text) → IsTabless s → split_tabs s ≡ s ∷ []
unfolding split_tabs
split_tabs-last [] h = refl
split_tabs-last (c ∷ s) (h, k) = ground (arith, split_tabs-last s k)

channel_text-IsTabless : (c : LogChannel) → IsTabless (channel_text c)
unfolding channel_text lit
channel_text-IsTabless operations = ground arith
channel_text-IsTabless audit = ground arith
channel_text-IsTabless security = ground arith
channel_text-IsTabless LogChannel.error = ground arith

level_text-IsTabless : (l : LogLevel) → IsTabless (level_text l)
unfolding level_text lit
level_text-IsTabless info = ground arith
level_text-IsTabless warning = ground arith
level_text-IsTabless LogLevel.error = ground arith

parse_level-level_text : (l : LogLevel) → parse_level (level_text l) ≡ some l
unfolding parse_level level_text text_eq lit
parse_level-level_text info = refl
parse_level-level_text warning = refl
parse_level-level_text LogLevel.error = refl

abbrev event_of : LogEvent → Text
event_of e = sanitize_log_value e.event 96

abbrev detail_of : LogEvent → Text
detail_of e = sanitize_log_value e.detail 512

-- The formatted line without its newline.
abbrev pub line_of : Text → LogEvent → Text
line_of t e =
    t
    ++ (b'\t'
        ∷ (level_text e.level
            ++ (b'\t'
                ∷ (channel_text e.channel ++ (b'\t' ∷ (event_of e ++ (b'\t' ∷ detail_of e)))))))

split_tabs-line_of :
    (t : Text) (e : LogEvent)
    → IsTabless t
    → split_tabs (line_of t e)
      ≡ t ∷ level_text e.level ∷ channel_text e.channel ∷ event_of e ∷ detail_of e ∷ []
split_tabs-line_of t e h = cc (
  split_tabs-append t
      (level_text e.level
        ++ (b'\t' ∷ (channel_text e.channel ++ (b'\t' ∷ (event_of e ++ (b'\t' ∷ detail_of e))))))
      h,
  split_tabs-append (level_text e.level)
      (channel_text e.channel ++ (b'\t' ∷ (event_of e ++ (b'\t' ∷ detail_of e))))
      (level_text-IsTabless e.level),
  split_tabs-append (channel_text e.channel) (event_of e ++ (b'\t' ∷ detail_of e))
      (channel_text-IsTabless e.channel),
  split_tabs-append (event_of e) (detail_of e)
      (IsPrintable-IsTabless (event_of e) (sanitize_log_value-bounds e.event 96).1),
  split_tabs-last (detail_of e)
      (IsPrintable-IsTabless (detail_of e) (sanitize_log_value-bounds e.detail 512).1),
)

parse_line :
    (t : Text) (e : LogEvent)
    → length t ≡ 20
    → is_safe_event_name (event_of e) ≡ true
    → parse_fields
        (t ∷ level_text e.level ∷ channel_text e.channel ∷ event_of e ∷ detail_of e ∷ [])
        e.channel
      ≡ some (entry_of t (event_of e) e.level)
unfolding parse_fields
parse_line t e h k =
    ground (arith, text_eq_refl (channel_text e.channel), parse_level-level_text e.level)

-- The line that is written for an event is read back as its time, its level and its event name as
-- sanitized, whatever the detail holds, if the time has 20 bytes without a tab and the sanitized
-- name is one that the reader accepts. The written text is that line and a newline.
pub parse_entry-format_log_event :
    (t : Text) (e : LogEvent)
    → length t ≡ 20
    → IsTabless t
    → is_safe_event_name (sanitize_log_value e.event 96) ≡ true
    → (format_log_event t e ≡ line_of t e ++ (b'\n' ∷ []))
      × (parse_entry (line_of t e) e.channel
          ≡ some (record { timestamp = t; level = e.level; event = sanitize_log_value e.event 96 }))
unfolding format_log_event parse_entry entry_of
parse_entry-format_log_event t e h k n =
    (simp append_assoc, cc (split_tabs-line_of t e k, parse_line t e h n))
