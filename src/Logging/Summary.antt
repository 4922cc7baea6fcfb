-- ===== src/Logging/Summary.antt =====
-- `LocalLogAnalyzer::inspect` of src/logging/analysis/log_analysis.cpp, over what the storage
-- functions answer for each channel. `std::sort` leaves open the order of two entries with the same
-- count and event, of different channels: here they keep the order of the map.
pub mod Counts
use fedora_firewall_control.Storage.Reading.{PrivateRead}
use fedora_firewall_control.Logging.Analysis.{ParsedLogEntry, parse_entry}
use fedora_firewall_control.Logging.{
  LogChannel, operations, audit, security, LogLevel, info, warning,
}
use fedora_firewall_control.Common.{
  ℕ, ◌+◌, Bool, true, false, not, ◌&&◌, ◌||◌, Option, none, some, List, [], ◌∷◌, ltb, leb, ◌==◌,
  if◌then◌else◌, is_empty, take, filter,
}
use fedora_firewall_control.Text.{Text, lit, text_eq}
use fedora_firewall_control.Text.Order.{text_lt}
use fedora_firewall_control.Text.Words.{lines}

abbrev pub display_limit : ℕ
display_limit = 6

pub record LogEventFrequency : Type 0 where
  pub channel : LogChannel
  pub event : Text
  pub count : ℕ

pub record LogAnalysis : Type 0 where
  pub logs_available : Bool
  pub entries : ℕ
  pub warnings : ℕ
  pub errors : ℕ
  pub most_recent_utc : Text
  pub frequent_events : List LogEventFrequency
  pub recurring_failures : List LogEventFrequency
  pub diagnostic : Text

-- The order of the enumerators.
abbrev channel_index : LogChannel → ℕ
channel_index operations = 0
channel_index audit = 1
channel_index security = 2
channel_index LogChannel.error = 3

-- `++counts[{channel, event}]` on a map in key order.
unfoldable pub count_event : LogChannel → Text → List LogEventFrequency → List LogEventFrequency
unfolding text_eq text_lt
count_event channel event [] = record { channel = channel; event = event; count = 1 } ∷ []
count_event channel event (f ∷ fs) =
    let rest = count_event channel event fs in
    let new : LogEventFrequency = record { channel = channel; event = event; count = 1 } in
    if channel_index channel == channel_index f.channel && text_eq event f.event
    then record f { count = f.count + 1 } ∷ fs
    else if ltb (channel_index channel) (channel_index f.channel)
        || (channel_index channel == channel_index f.channel && text_lt event f.event)
    then new ∷ f ∷ fs
    else f ∷ rest

-- What the loops carry.
pub record Tally : Type 0 where
  pub analysis : LogAnalysis
  pub all_events : List LogEventFrequency
  pub failures : List LogEventFrequency

abbrev is_warning : LogLevel → Bool
is_warning warning = true
is_warning _ = false

abbrev pub is_error : LogLevel → Bool
is_error LogLevel.error = true
is_error _ = false

unfoldable pub count_entry : LogChannel → ParsedLogEntry → Tally → Tally
unfolding count_event text_lt
count_entry channel entry t = record t {
  analysis = record t.analysis {
    entries = t.analysis.entries + 1;
    warnings = if is_warning entry.level then t.analysis.warnings + 1 else t.analysis.warnings;
    errors = if is_error entry.level then t.analysis.errors + 1 else t.analysis.errors;
    most_recent_utc =
        if text_lt t.analysis.most_recent_utc entry.timestamp
        then entry.timestamp
        else t.analysis.most_recent_utc;
  };
  all_events = count_event channel entry.event t.all_events;
  failures =
      if is_error entry.level then count_event channel entry.event t.failures else t.failures;
}

unfoldable pub count_line : LogChannel → Option ParsedLogEntry → Tally → Tally
unfolding count_entry
count_line channel none t = t
count_line channel (some entry) t = count_entry channel entry t

unfoldable pub count_lines : LogChannel → List Text → Tally → Tally
unfolding count_line parse_entry
count_lines channel [] t = t
count_lines channel (line ∷ rest) t =
    count_lines channel rest (count_line channel (parse_entry line channel) t)

-- `secure_local_path` gives no path, or the file is read.
pub data ChannelLog : Type 0 where
  pathless : ChannelLog
  found : PrivateRead → ChannelLog

abbrev diagnose : Text → Tally → Tally
diagnose text t = record t { analysis = record t.analysis { diagnostic = text } }

unfoldable pub inspect_channel : LogChannel → ChannelLog → Tally → Tally
unfolding count_lines lines text_eq
inspect_channel channel pathless t = diagnose (lit "local log storage is unavailable") t
inspect_channel channel (found r) t =
    if r.succeeded
    then count_lines channel (lines r.text)
        (record t { analysis = record t.analysis { logs_available = true } })
    else if text_eq r.error (lit "No such file or directory")
    then t
    else diagnose (lit "one or more local logs could not be read safely") t

-- `std::tie(left.count, left.event) > std::tie(right.count, right.event)`
unfoldable pub ranks_before : LogEventFrequency → LogEventFrequency → Bool
unfolding text_lt
ranks_before left right =
    ltb right.count left.count || (left.count == right.count && text_lt right.event left.event)

unfoldable pub insert_ranked : LogEventFrequency → List LogEventFrequency → List LogEventFrequency
unfolding ranks_before
insert_ranked x [] = x ∷ []
insert_ranked x (y ∷ ys) =
    let rest = insert_ranked x ys in if ranks_before y x then y ∷ rest else x ∷ y ∷ ys

unfoldable pub rank : List LogEventFrequency → List LogEventFrequency
unfolding insert_ranked
rank [] = []
rank (x ∷ xs) = insert_ranked x (rank xs)

unfoldable pub append_ranked : List LogEventFrequency → ℕ → List LogEventFrequency
unfolding rank
append_ranked counts minimum_count =
    take display_limit (rank (filter (λ f. leb minimum_count f.count) counts))

abbrev pub no_tally : Tally
no_tally = record {
  analysis = record {
    logs_available = false;
    entries = 0;
    warnings = 0;
    errors = 0;
    most_recent_utc = [];
    frequent_events = [];
    recurring_failures = [];
    diagnostic = [];
  };
  all_events = [];
  failures = [];
}

unfoldable pub inspect_channels : (LogChannel → ChannelLog) → Tally
unfolding inspect_channel
inspect_channels logs = inspect_channel LogChannel.error (logs LogChannel.error) (
    inspect_channel security (logs security)
      (inspect_channel audit (logs audit) (inspect_channel operations (logs operations) no_tally)))

unfoldable pub final_diagnostic : LogAnalysis → Text
final_diagnostic a =
    if not a.logs_available && is_empty a.diagnostic
    then lit "no local application logs yet"
    else if a.logs_available && a.errors == 0 && is_empty a.diagnostic
    then lit "no error-level events in retained logs"
    else a.diagnostic

unfoldable pub inspect : (LogChannel → ChannelLog) → LogAnalysis
unfolding inspect_channels append_ranked final_diagnostic
inspect logs =
    let t = inspect_channels logs in
    record t.analysis {
      frequent_events = append_ranked t.all_events 1;
      recurring_failures = append_ranked t.failures 2;
      diagnostic = final_diagnostic t.analysis;
    }
