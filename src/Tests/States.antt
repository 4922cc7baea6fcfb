-- ===== src/Tests/States.antt =====
-- The states that the tests share.
use fedora_firewall_control.Common.{true, false, [], ◌∷◌}
use fedora_firewall_control.Text.{lit}
use fedora_firewall_control.Mode.{hostile_network}
use fedora_firewall_control.Firewall.{
  FirewallState, ZoneState, ObservationStatus, JournalQueryStatus, ListeningSocket,
  NetworkDeviceState, no_state, no_zone, no_signals, no_sockets, no_vpn,
}

-- A zone that opens nothing.
abbrev pub closed_zone : ZoneState
closed_zone = record no_zone { target = lit "default"; interfaces = lit "eth0" ∷ [] }

abbrev pub wired : NetworkDeviceState
wired = record { interface_name = lit "eth0"; type = lit "ethernet"; state = lit "connected" }

-- A host on which every check is clean.
abbrev pub clean_host : FirewallState
clean_host = record no_state {
  installed = true;
  active = true;
  enabled = true;
  permanent_config_valid = true;
  permanent_config_checked = true;
  installation_status = ObservationStatus.available;
  service_state = ObservationStatus.available;
  service_enablement = ObservationStatus.available;
  panic_state = ObservationStatus.available;
  permanent_config = ObservationStatus.available;
  default_zone_status = ObservationStatus.available;
  denied_logging_status = ObservationStatus.available;
  active_zones_status = ObservationStatus.available;
  runtime_zones_status = ObservationStatus.available;
  permanent_zones_status = ObservationStatus.available;
  active_policies_status = ObservationStatus.available;
  default_zone = lit "public";
  log_denied = lit "all";
  active_zone_interfaces = (lit "public", lit "eth0" ∷ []) ∷ [];
  network_manager = record { available = true; devices = wired ∷ []; diagnostic = [] };
  vpn = record no_vpn { interface_scan_available = true };
  sockets = record no_sockets { available = true };
  security_signals = record no_signals {
    kernel_journal_available = true;
    kernel_journal_status = JournalQueryStatus.available;
    firewalld_journal_available = true;
    firewalld_journal_status = JournalQueryStatus.available;
  };
  evidence_quality = record {
    time_sync_status_available = true;
    time_synchronized = true;
    journald_service_available = true;
    diagnostic = [];
  };
  runtime_zones = (lit "public", closed_zone) ∷ [];
  permanent_zones = (lit "public", closed_zone) ∷ [];
}

abbrev pub hostile_host : FirewallState
hostile_host = record clean_host { operating_mode = hostile_network }

abbrev pub web_listener : ListeningSocket
web_listener = record {
  protocol = lit "tcp";
  endpoint = lit "0.0.0.0:80";
  loopback_only = false;
  multicast_only = false;
  process_name = lit "httpd";
}

-- Two ports in two orders, and a listener.
abbrev pub open_zone : ZoneState
open_zone = record closed_zone { ports = lit "80/tcp" ∷ lit "22/tcp" ∷ [] }

abbrev pub reordered_zone : ZoneState
reordered_zone = record closed_zone { ports = lit "22/tcp" ∷ lit "80/tcp" ∷ [] }

abbrev pub open_host : FirewallState
open_host = record clean_host {
  runtime_zones = (lit "public", open_zone) ∷ [];
  sockets = record no_sockets { available = true; listeners = web_listener ∷ [] };
}
