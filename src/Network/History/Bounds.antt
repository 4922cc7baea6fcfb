-- ===== src/Network/History/Bounds.antt =====
-- How much of the history is kept.
use fedora_firewall_control.Common.{
  ◌≤◌, ◌+◌, arith, List, [], ◌∷◌, ◌++◌, ℕ, length, length-append, Bool, reverse,
}
use fedora_firewall_control.Text.{Text}
use fedora_firewall_control.Network.History.{
  maximum_history_bytes, push_record, collect_records, retain, retain_recent_records,
  NetworkMetadata, history_record, Write, append, write_readable, content, refuse, replace, extend,
}
use fedora_firewall_control.Text.Laws.{text_eq_iff}
use fedora_firewall_control.Text.Words.{lines}

push_record-length :
    (line : Text) (records : List Text)
    → length records ≤ 511
    → length (push_record line records) ≤ 511
unfolding push_record
push_record-length line [] h = ground arith
push_record-length line (r ∷ records) h = ground (arith, length-append records (line ∷ []))

pub collect_records-length :
    (records rest : List Text) → length records ≤ 511 → length (collect_records records rest) ≤ 511
unfolding collect_records
collect_records-length records [] h = h
collect_records-length records (line ∷ rest) h = ground (
  arith,
  collect_records-length records rest,
  collect_records-length (push_record line records) rest,
  push_record-length line records,
)

retain-length :
    (retained : Text) (older : List Text)
    → length retained ≤ maximum_history_bytes
    → length (retain retained older) ≤ maximum_history_bytes
unfolding retain
retain-length retained [] h = h
retain-length retained (line ∷ older) h =
    ground
      (arith, retain-length (line ++ b'\n' ∷ retained) older, length-append line (b'\n' ∷ retained))

retain_recent_records-length :
    (text : Text) → length (retain_recent_records text) ≤ maximum_history_bytes
unfolding retain_recent_records
retain_recent_records-length text =
    retain-length [] (reverse (collect_records [] (lines text))) (omega arith)

-- The bytes that the file holds after the write; a refused write leaves it as it is.
abbrev pub size_after : ℕ → Write → ℕ
size_after before (refuse why) = before
size_after before (replace new) = length new
size_after before (extend new) = before + length new

-- A write to a history that could be read never leaves more in the file than 256 KiB and the new
-- record.
pub append-size :
    (existing : Text) (m : NetworkMetadata) (vpn_active : Bool)
    → size_after (length existing) (append (content existing) m vpn_active)
      ≤ maximum_history_bytes + length (history_record m vpn_active)
unfolding append write_readable
append-size existing m vpn_active = ground (
  arith,
  retain_recent_records-length existing,
  length-append (retain_recent_records existing) (history_record m vpn_active),
  text_eq_iff (retain_recent_records existing) existing,
)
