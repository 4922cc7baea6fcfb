-- ===== src/Logging/Analysis.antt =====
-- src/logging/analysis/log_analysis.cpp: the reading of a log line.
pub mod RoundTrip
use fedora_firewall_control.Common.{
  Bool, not, ◌&&◌, ◌||◌, Option, none, some, List, [], ◌∷◌, leb, ◌==◌, if◌then◌else◌, length,
  is_empty, all,
}
use fedora_firewall_control.Text.{Text, lit, text_eq, is_alnum}
use fedora_firewall_control.Text.Words.{cons_head}
use fedora_firewall_control.Logging.{channel_text, LogChannel, LogLevel, info, warning}

pub record ParsedLogEntry : Type 0 where
  pub timestamp : Text
  pub level : LogLevel
  pub event : Text

unfoldable pub parse_level : Text → Option LogLevel
unfolding text_eq
parse_level text =
    if text_eq text (lit "INFO")
    then some info
    else if text_eq text (lit "WARN")
    then some warning
    else if text_eq text (lit "ERROR")
    then some LogLevel.error
    else none

unfoldable pub is_safe_event_name : Text → Bool
unfolding is_alnum
is_safe_event_name event =
    not (is_empty event)
    && leb (length event) 96
    && all (λ c. is_alnum c || c == b'-' || c == b'_') event

-- The fields of a line between its tabs; there is always one.
unfoldable pub split_tabs : Text → List Text
split_tabs [] = [] ∷ []
split_tabs (c ∷ cs) = let rest = split_tabs cs in if c == b'\t' then [] ∷ rest else cons_head c rest

entry_of : Text → Text → LogLevel → ParsedLogEntry
entry_of timestamp event level = record { timestamp = timestamp; level = level; event = event }

parse_fields : List Text → LogChannel → Option ParsedLogEntry
parse_fields (timestamp ∷ level ∷ channel ∷ event ∷ detail ∷ []) expected =
    if not (length timestamp == 20)
      || not (text_eq channel (channel_text expected))
      || not (is_safe_event_name event)
    then none
    else elim (parse_level level) [ none ↦ none | some l ↦ some (entry_of timestamp event l) ]
parse_fields _ expected = none

-- Five fields exactly.
unfoldable pub parse_entry : Text → LogChannel → Option ParsedLogEntry
unfolding parse_fields entry_of split_tabs parse_level is_safe_event_name text_eq channel_text
parse_entry line expected = parse_fields (split_tabs line) expected
