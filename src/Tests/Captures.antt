-- ===== src/Tests/Captures.antt =====
-- A capture of the network evidence at concrete answers.
use fedora_firewall_control.Network.Evidence.{HistorySystem, Lookup, NetworkCapture, capture}
use fedora_firewall_control.Network.Evidence.Captured.{EndsWith, capture-EndsWith}
use fedora_firewall_control.Storage.{directory, regular, status, Node}
use fedora_firewall_control.Network.History.{NetworkMetadata, content, history_record}
use fedora_firewall_control.Common.{◌≡◌, refl, true, false, none, some, [], ◌∷◌, ◌++◌}
use fedora_firewall_control.Storage.Replacement.{Directory, ReplaceSystem}
use fedora_firewall_control.Storage.Replacement.Refined.{base_name}
use fedora_firewall_control.Storage.Writing.{WriteSystem, taken}
use fedora_firewall_control.Text.{Text, lit}

abbrev quiet_disk : ReplaceSystem
quiet_disk = record {
  directory_status = status (record { kind = directory; owned = true; links = 2 });
  chmod_error = none;
  open_error = none;
  lookup_error = none;
  process = 7;
  create_error = λ _. none;
  stat_error = none;
  fchmod_error = none;
  writes = taken 999 ∷ [];
  fsync_error = none;
  close_error = none;
  rename_error = none;
  directory_fsync_error = none;
  unlink_error = none;
}

abbrev quiet_file : WriteSystem
quiet_file = record {
  open_error = none;
  stat_error = none;
  fchmod_error = none;
  truncate_error = none;
  seek_error = none;
  writes = taken 999 ∷ [];
  fsync_error = none;
  close_error = none;
}

abbrev disk : HistorySystem
disk = record { replacing = quiet_disk; extending = quiet_file }

abbrev observed : NetworkMetadata
observed = record {
  observed_at_utc = lit "now";
  public_ip = lit "192.0.2.1";
  default_interface = [];
  default_gateway = [];
  connection_profile = [];
  wifi_ssid = [];
  wifi_bssid = [];
  wifi_security = [];
  country = [];
  timezone = [];
  isp = [];
  autonomous_system = [];
}

abbrev seen_address : Lookup
seen_address = record { metadata = observed; public_ip_lookup_succeeded = true }

abbrev history_path : Text
history_path = lit "/s/h"

abbrev old_history : Node
old_history = record {
  status = record { kind = regular; owned = true; links = 1 };
  text = lit "old\n";
}

abbrev captured_evidence : NetworkCapture
captured_evidence = record { lookup = seen_address; saved = true; storage_result = history_path }

abbrev extended_directory : Directory
extended_directory =
    (lit "h", record old_history { text = lit "old\n" ++ history_record observed false }) ∷ []

captures :
    capture disk
      (history_path, [])
      (content (lit "old\n"))
      seen_address
      false
      ((lit "h", old_history) ∷ [])
    ≡ some (captured_evidence, extended_directory)
unfolding capture lit history_record
captures = refl

capture-EndsWith_example :
    (true ≡ true)
    × EndsWith (base_name history_path) (history_record observed false) extended_directory
capture-EndsWith_example =
    capture-EndsWith disk history_path [] (content (lit "old\n")) seen_address false
      ((lit "h", old_history) ∷ []) extended_directory captured_evidence captures refl
