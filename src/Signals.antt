-- ===== src/Signals.antt =====
-- src/security/security_signals.cpp: bounded journal summaries.
pub mod Counts
use fedora_firewall_control.Common.{
  ℕ, ◌+◌, Bool, true, false, not, ◌&&◌, ◌||◌, none, some, List, [], ◌∷◌, leb, ◌==◌, if◌then◌else◌,
  length, is_empty, drop,
}
use fedora_firewall_control.Text.{Text, lit, text_eq}
use fedora_firewall_control.Text.Search.{starts_with, find, take_until}
use fedora_firewall_control.Text.Words.{lines}
use fedora_firewall_control.Text.Order.{set_insert}
use fedora_firewall_control.Command.{success, CommandRunner, error_or, CommandResult}
use fedora_firewall_control.Firewall.{
  JournalQueryStatus, SecuritySignalsState, no_signals, journal_query_available,
}

abbrev pub journal_limit : ℕ
journal_limit = 200

unfoldable pub field_value : Text → Text → Text
unfolding find take_until
field_value line key = elim (find line key) [
  | none ↦ []
  | some first ↦
      take_until (λ c. c == b' ' || c == b'\t' || c == b'\n') (drop (first + length key) line)
]

-- Neither empty nor one of the two marker lines of journalctl.
unfoldable pub is_entry : Text → Bool
unfolding text_eq starts_with
is_entry line =
    not (is_empty line)
    && not (text_eq line (lit "-- No entries --"))
    && not (starts_with line (lit "-- Boot "))

count_entries : ℕ → List Text → ℕ
count_entries count [] = count
count_entries count (line ∷ rest) = count_entries (if is_entry line then count + 1 else count) rest

unfoldable pub count_journal_entries : Text → ℕ
unfolding count_entries is_entry lines
count_journal_entries journal_output = count_entries 0 (lines journal_output)

pub record KernelDenialSummary : Type 0 where
  pub event_count : ℕ
  pub unique_sources : ℕ
  pub unique_destination_ports : ℕ

pub record DenialTally : Type 0 where
  pub events : ℕ
  pub sources : List Text
  pub destination_ports : List Text

abbrev add_value : Text → List Text → List Text
add_value value values = if is_empty value then values else set_insert value values

unfoldable pub add_denial : DenialTally → Text → DenialTally
unfolding field_value set_insert is_entry
add_denial t line = if not (is_entry line) then t else record {
  events = t.events + 1;
  sources = add_value (field_value line (lit "SRC=")) t.sources;
  destination_ports = add_value (field_value line (lit "DPT=")) t.destination_ports;
}

unfoldable pub tally_denials : DenialTally → List Text → DenialTally
unfolding add_denial
tally_denials t [] = t
tally_denials t (line ∷ rest) = tally_denials (add_denial t line) rest

abbrev no_denials : DenialTally
no_denials = record { events = 0; sources = []; destination_ports = [] }

unfoldable pub summarize_kernel_denials : Text → KernelDenialSummary
unfolding tally_denials lines
summarize_kernel_denials journal_output =
    let t = tally_denials no_denials (lines journal_output) in
    record {
      event_count = t.events;
      unique_sources = length t.sources;
      unique_destination_ports = length t.destination_ports;
    }

abbrev bounded_status : Bool → JournalQueryStatus
bounded_status true = JournalQueryStatus.partial
bounded_status false = JournalQueryStatus.available

-- The first half of `SecuritySignalsInspector::inspect`.
unfoldable pub kernel_signals : CommandResult → SecuritySignalsState
unfolding summarize_kernel_denials
kernel_signals kernel =
    let summary = summarize_kernel_denials kernel.stdout_text in
    let status = bounded_status (leb journal_limit summary.event_count) in
    if success kernel
    then record no_signals {
      kernel_drop_or_reject_events = summary.event_count;
      kernel_denial_unique_sources = summary.unique_sources;
      kernel_denial_unique_destination_ports = summary.unique_destination_ports;
      kernel_journal_truncated = leb journal_limit summary.event_count;
      kernel_journal_status = status;
      kernel_journal_available = journal_query_available status;
    }
    else record no_signals { diagnostic = error_or kernel (lit "kernel journal query failed") }

-- The second half.
unfoldable pub firewalld_signals : CommandResult → SecuritySignalsState → SecuritySignalsState
unfolding count_journal_entries
firewalld_signals firewalld state =
    let events = count_journal_entries firewalld.stdout_text in
    let status = bounded_status (leb journal_limit events) in
    if success firewalld
    then record state {
      firewalld_service_events = events;
      firewalld_journal_truncated = leb journal_limit events;
      firewalld_journal_status = status;
      firewalld_journal_available = journal_query_available status;
    }
    else if is_empty state.diagnostic
    then record state { diagnostic = error_or firewalld (lit "firewalld journal query failed") }
    else state

abbrev pub kernel_query : List Text
kernel_query =
    lit "journalctl"
    ∷ lit "-k"
    ∷ lit "--no-pager"
    ∷ lit "--since=-24h"
    ∷ lit "--grep=DROP|REJECT"
    ∷ lit "-n"
    ∷ lit "200"
    ∷ []

abbrev pub firewalld_query : List Text
firewalld_query =
    lit "journalctl"
    ∷ lit "-u"
    ∷ lit "firewalld.service"
    ∷ lit "--no-pager"
    ∷ lit "--since=-24h"
    ∷ lit "-n"
    ∷ lit "200"
    ∷ []

unfoldable pub inspect : CommandRunner → SecuritySignalsState
unfolding kernel_signals firewalld_signals
inspect run = firewalld_signals (run firewalld_query) (kernel_signals (run kernel_query))
