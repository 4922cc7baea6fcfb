-- ===== src/Logging/Summary/Counts.antt =====
-- The numbers of `LocalLogAnalyzer::inspect` of src/logging/analysis/log_analysis.cpp.
use fedora_firewall_control.Logging.Summary.{no_tally, inspect}
use fedora_firewall_control.Common.{
  subst, ℕ, ◌+◌, ◌≤◌, ◌≡◌, true, Option, none, some, List, [], ◌∷◌, arith, zero, suc, refl, inl,
  inr, Bool, false, leb, leb→le, Bool-cases, length, take, filter, All, All-filter,
}
use fedora_firewall_control.Logging.{LogChannel, operations, audit, security}
use fedora_firewall_control.Logging.Analysis.{parse_entry, ParsedLogEntry}
use fedora_firewall_control.Logging.Summary.{
  Tally, count_event, count_line, count_lines, inspect_channel, LogEventFrequency, ChannelLog,
  pathless, found, display_limit, ranks_before, insert_ranked, rank, append_ranked,
  inspect_channels,
}
use fedora_firewall_control.Text.{Text}
use fedora_firewall_control.Text.Words.{lines}

abbrev pub total : List LogEventFrequency → ℕ
total [] = 0
total (f ∷ fs) = f.count + total fs

total-count_event :
    (channel : LogChannel) (event : Text) (fs : List LogEventFrequency)
    → total (count_event channel event fs) ≡ total fs + 1
unfolding count_event
total-count_event channel event [] = omega arith
total-count_event channel event (f ∷ fs) = ground (arith, total-count_event channel event fs)

-- The counters and the maps of events agree.
record IsCounted (t : Tally) : Type 0 where
  entered : total t.all_events ≡ t.analysis.entries
  failed : total t.failures ≡ t.analysis.errors
  graded : t.analysis.warnings + t.analysis.errors ≤ t.analysis.entries
  unread : t.analysis.logs_available ≡ false → t.analysis.entries ≡ 0

-- While a log is read, the logs are available.
abbrev IsReading : Tally → Type 0
IsReading t = IsCounted t × (t.analysis.logs_available ≡ true)

count_line-IsReading :
    (channel : LogChannel) (o : Option ParsedLogEntry) (t : Tally)
    → IsReading t
    → IsReading (count_line channel o t)
unfolding count_line
count_line-IsReading channel none t h = h
count_line-IsReading channel (some e) t (h, a) = (
  ground (
    arith,
    total-count_event channel e.event t.all_events,
    total-count_event channel e.event t.failures,
  ),
  a,
)

count_lines-IsReading :
    (channel : LogChannel) (rows : List Text) (t : Tally)
    → IsReading t
    → IsReading (count_lines channel rows t)
unfolding count_lines
count_lines-IsReading channel [] t h = h
count_lines-IsReading channel (row ∷ rows) t h =
    count_lines-IsReading channel rows _
      (count_line-IsReading channel (parse_entry row channel) t h)

open_log :
    (t : Tally)
    → IsCounted t
    → IsReading (record t { analysis = record t.analysis { logs_available = true } })
open_log t h = (ground arith, refl)

inspect_channel-IsCounted :
    (channel : LogChannel) (l : ChannelLog) (t : Tally)
    → IsCounted t
    → IsCounted (inspect_channel channel l t)
unfolding inspect_channel
inspect_channel-IsCounted channel pathless t h = ground arith
inspect_channel-IsCounted channel (found r) t h =
    ground (arith, (count_lines-IsReading channel (lines r.text) _ (open_log t h)).0)

inspect_channels-IsCounted : (logs : LogChannel → ChannelLog) → IsCounted (inspect_channels logs)
unfolding inspect_channels
inspect_channels-IsCounted logs =
    inspect_channel-IsCounted LogChannel.error (logs LogChannel.error) _ (
      inspect_channel-IsCounted security (logs security) _ (
        inspect_channel-IsCounted audit (logs audit) _
          (inspect_channel-IsCounted operations (logs operations) no_tally (ground arith))))

total-insert_ranked :
    (x : LogEventFrequency) (xs : List LogEventFrequency)
    → total (insert_ranked x xs) ≡ x.count + total xs
unfolding insert_ranked
total-insert_ranked x [] = omega arith
total-insert_ranked x (y ∷ ys) = ground (arith, total-insert_ranked x ys)

total-rank : (xs : List LogEventFrequency) → total (rank xs) ≡ total xs
unfolding rank
total-rank [] = refl
total-rank (x ∷ xs) = omega (arith, total-insert_ranked x (rank xs), total-rank xs)

total-filter-le :
    (p : LogEventFrequency → Bool) (xs : List LogEventFrequency) → total (filter p xs) ≤ total xs
total-filter-le p [] = omega arith
total-filter-le p (x ∷ xs) = ground (arith, total-filter-le p xs)

total-take-le : (n : ℕ) (xs : List LogEventFrequency) → total (take n xs) ≤ total xs
total-take-le zero xs = omega arith
total-take-le (suc n) [] = omega arith
total-take-le (suc n) (x ∷ xs) = omega (arith, total-take-le n xs)

length-take-le : (n : ℕ) (xs : List LogEventFrequency) → length (take n xs) ≤ n
length-take-le zero xs = omega arith
length-take-le (suc n) [] = omega arith
length-take-le (suc n) (x ∷ xs) = omega (arith, length-take-le n xs)

module _ (P : LogEventFrequency → Type 0) where
  All-insert_ranked :
      (x : LogEventFrequency) (xs : List LogEventFrequency)
      → P x
      → All P xs
      → All P (insert_ranked x xs)
  unfolding insert_ranked
  All-insert_ranked x [] h k = (h, tt)
  All-insert_ranked x (y ∷ ys) h k = elim (Bool-cases (ranks_before y x)) [
    | inl behind ↦ rw behind (k.0, All-insert_ranked x ys h k.1)
    | inr before ↦ rw before (h, k)
  ]

  All-rank : (xs : List LogEventFrequency) → All P xs → All P (rank xs)
  unfolding rank
  All-rank [] k = tt
  All-rank (x ∷ xs) (h, k) = All-insert_ranked x (rank xs) h (All-rank xs k)

  All-take : (n : ℕ) (xs : List LogEventFrequency) → All P xs → All P (take n xs)
  All-take zero xs k = tt
  All-take (suc n) [] k = tt
  All-take (suc n) (x ∷ xs) (h, k) = (h, All-take n xs k)

  All-self : (xs : List LogEventFrequency) → ((x : LogEventFrequency) → P x) → All P xs
  All-self [] f = tt
  All-self (x ∷ xs) f = (f x, All-self xs f)

-- What is shown of a map: six lines at most, of events that are frequent enough.
pub record IsShown (minimum whole : ℕ) (shown : List LogEventFrequency) : Type 0 where
  pub short : length shown ≤ display_limit
  pub covered : total shown ≤ whole
  pub frequent : All (λ f. minimum ≤ f.count) shown

append_ranked-IsShown :
    (counts : List LogEventFrequency) (minimum : ℕ)
    → IsShown minimum (total counts) (append_ranked counts minimum)
unfolding append_ranked
append_ranked-IsShown counts minimum =
    let kept = filter (λ f. leb minimum f.count) counts in
    record {
      short = length-take-le display_limit (rank kept);
      covered = omega (
        arith,
        total-take-le display_limit (rank kept),
        total-rank kept,
        total-filter-le (λ f. leb minimum f.count) counts,
      );
      frequent = All-take _ display_limit (rank kept) (
          All-rank _ kept (
            All-filter (λ f. minimum ≤ f.count) (λ f. leb minimum f.count) counts
              (All-self _ counts (λ f. leb→le minimum f.count))));
    }

-- The summary of the logs: warnings and errors are among the entries, and no entry is counted
-- where no log could be read. Either list shows at most six events and never more occurrences than
-- there are entries, or error entries; a recurring failure has occurred twice at least.
pub inspect-IsShown :
    (logs : LogChannel → ChannelLog)
    → let a = inspect logs in
      (a.warnings + a.errors ≤ a.entries)
      × (a.logs_available ≡ false → a.entries ≡ 0)
      × IsShown 1 a.entries a.frequent_events
      × IsShown 2 a.errors a.recurring_failures
unfolding inspect
inspect-IsShown logs =
    let t = inspect_channels logs in
    let h = inspect_channels-IsCounted logs in
    (
      h.graded,
      h.unread,
      subst (λ n. IsShown 1 n (append_ranked t.all_events 1)) h.entered
          (append_ranked-IsShown t.all_events 1),
      subst (λ n. IsShown 2 n (append_ranked t.failures 2)) h.failed
          (append_ranked-IsShown t.failures 2),
    )
