-- ===== src/Signals/Counts.antt =====
-- The journal counts, and what the statuses say of them.
use fedora_firewall_control.Common.{
  ℕ, ◌+◌, ◌≤◌, ◌≡◌, Bool, ◌&&◌, List, [], ◌∷◌, arith, ltb, leb, length,
}
use fedora_firewall_control.Command.{success, CommandRunner}
use fedora_firewall_control.Firewall.{JournalQueryStatus, journal_query_available}
use fedora_firewall_control.Signals.{
  journal_limit, field_value, count_journal_entries, add_denial, tally_denials,
  summarize_kernel_denials, inspect, DenialTally, kernel_signals, firewalld_signals, count_entries,
  add_value, no_denials, kernel_query, firewalld_query,
}
use fedora_firewall_control.Sockets.Summary.Counts.{length-set_insert}
use fedora_firewall_control.Text.{Text, lit}
use fedora_firewall_control.Text.Words.{lines}

length-add_value :
    (value : Text) (values : List Text) → length (add_value value values) ≤ length values + 1
length-add_value value values = ground (arith, length-set_insert value values)

record IsCounted (t u : DenialTally) (ls : List Text) : Type 0 where
  events : u.events ≡ count_entries t.events ls
  sources : length u.sources + t.events ≤ length t.sources + u.events
  destination_ports : length u.destination_ports + t.events ≤ length t.destination_ports + u.events

tally_denials-IsCounted : (t : DenialTally) (ls : List Text) → IsCounted t (tally_denials t ls) ls
unfolding tally_denials count_entries
tally_denials-IsCounted t [] = ground arith
tally_denials-IsCounted t (l ∷ ls) = ground (
  arith,
  tally_denials-IsCounted (add_denial t l) ls,
  length-add_value (field_value l (lit "SRC=")) t.sources,
  length-add_value (field_value l (lit "DPT=")) t.destination_ports,
)

-- The two readers of journal text count the same entries, and no summary has more distinct
-- sources or ports than entries.
pub summarize_kernel_denials_counts :
    (output : Text)
    → let k = summarize_kernel_denials output in
      (k.event_count ≡ count_journal_entries output)
      × (k.unique_sources ≤ k.event_count)
      × (k.unique_destination_ports ≤ k.event_count)
unfolding summarize_kernel_denials count_journal_entries
summarize_kernel_denials_counts output =
    ground (arith, tally_denials-IsCounted no_denials (lines output))

-- A journal is available just where its query succeeded and returned fewer entries than the limit.
pub record IsHonest (available truncated : Bool) (status : JournalQueryStatus) (ran : Bool)
    (events : ℕ) : Type 0 where
  pub available_is : available ≡ (ran && ltb events journal_limit)
  pub truncated_is : truncated ≡ (ran && leb journal_limit events)
  pub status_is : available ≡ journal_query_available status

-- Each half of the inspection reports a journal as available just where its query succeeded with
-- fewer entries than the limit, and the truncation flag and the status say the same.
pub inspect-IsHonest :
    (run : CommandRunner)
    → let s = inspect run in
      let kernel = run kernel_query in
      let service = run firewalld_query in
      IsHonest s.kernel_journal_available s.kernel_journal_truncated s.kernel_journal_status
        (success kernel)
        (count_journal_entries kernel.stdout_text)
      × IsHonest s.firewalld_journal_available s.firewalld_journal_truncated
          s.firewalld_journal_status
          (success service)
          (count_journal_entries service.stdout_text)
unfolding inspect kernel_signals firewalld_signals
inspect-IsHonest run =
    ground (arith, summarize_kernel_denials_counts (run kernel_query).stdout_text)
