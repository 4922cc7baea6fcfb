-- ===== src/Firewall.antt =====
-- include/ffc/firewall_state.hpp and the records of the collectors that a posture snapshot holds.
pub mod ZoneParser
pub mod ActiveZones
pub mod ZonePolicy
pub mod Applicable
use fedora_firewall_control.Common.{ℕ, Bool, true, false, List, []}
use fedora_firewall_control.Text.{Text}
use fedora_firewall_control.Mode.{OperatingMode, OperatingModeLoadStatus, normal, defaulted}

pub data ObservationStatus : Type 0 where
  unavailable partial available : ObservationStatus

abbrev pub observation_available : ObservationStatus → Bool
observation_available available = true
observation_available partial = false
observation_available unavailable = false

pub record ZoneState : Type 0 where
  pub target : Text
  pub interfaces : List Text
  pub sources : List Text
  pub services : List Text
  pub ports : List Text
  pub protocols : List Text
  pub source_ports : List Text
  pub rich_rules : List Text
  pub forward_ports : List Text
  pub masquerade : Bool
  pub forward : Bool
  pub details_valid : Bool

abbrev pub no_zone : ZoneState
no_zone = record {
  target = [];
  interfaces = [];
  sources = [];
  services = [];
  ports = [];
  protocols = [];
  source_ports = [];
  rich_rules = [];
  forward_ports = [];
  masquerade = false;
  forward = false;
  details_valid = true;
}

-- include/ffc/network_manager.hpp
pub record NetworkDeviceState : Type 0 where
  pub interface_name : Text
  pub type : Text
  pub state : Text

pub record NetworkManagerState : Type 0 where
  pub available : Bool
  pub devices : List NetworkDeviceState
  pub diagnostic : Text

-- include/ffc/vpn.hpp
pub record VpnState : Type 0 where
  pub nordvpn_installed : Bool
  pub interface_scan_available : Bool
  pub active_tunnel_interfaces : List Text
  pub diagnostic : Text

-- include/ffc/socket_inspector.hpp
pub record ListeningSocket : Type 0 where
  pub protocol : Text
  pub endpoint : Text
  pub loopback_only : Bool
  pub multicast_only : Bool
  pub process_name : Text

pub record SocketState : Type 0 where
  pub available : Bool
  pub listeners : List ListeningSocket
  pub process_metadata_requested : Bool
  pub diagnostic : Text

-- include/ffc/security_signals.hpp
pub data JournalQueryStatus : Type 0 where
  unavailable partial available : JournalQueryStatus

abbrev pub journal_query_available : JournalQueryStatus → Bool
journal_query_available JournalQueryStatus.available = true
journal_query_available JournalQueryStatus.partial = false
journal_query_available JournalQueryStatus.unavailable = false

pub record SecuritySignalsState : Type 0 where
  pub kernel_journal_available : Bool
  pub kernel_journal_status : JournalQueryStatus
  pub kernel_journal_truncated : Bool
  pub kernel_drop_or_reject_events : ℕ
  pub kernel_denial_unique_sources : ℕ
  pub kernel_denial_unique_destination_ports : ℕ
  pub firewalld_journal_available : Bool
  pub firewalld_journal_status : JournalQueryStatus
  pub firewalld_journal_truncated : Bool
  pub firewalld_service_events : ℕ
  pub diagnostic : Text

-- include/ffc/evidence_quality.hpp
pub record EvidenceQualityState : Type 0 where
  pub time_sync_status_available : Bool
  pub time_synchronized : Bool
  pub journald_service_available : Bool
  pub diagnostic : Text

pub record FirewallState : Type 0 where
  pub operating_mode : OperatingMode
  pub operating_mode_status : OperatingModeLoadStatus
  pub operating_mode_diagnostic : Text
  pub installed : Bool
  pub active : Bool
  pub enabled : Bool
  pub panic : Bool
  pub permanent_config_valid : Bool
  pub permanent_config_checked : Bool
  pub installation_status : ObservationStatus
  pub service_state : ObservationStatus
  pub service_enablement : ObservationStatus
  pub panic_state : ObservationStatus
  pub permanent_config : ObservationStatus
  pub default_zone_status : ObservationStatus
  pub denied_logging_status : ObservationStatus
  pub active_zones_status : ObservationStatus
  pub runtime_zones_status : ObservationStatus
  pub permanent_zones_status : ObservationStatus
  pub active_policies_status : ObservationStatus
  pub default_zone : Text
  pub log_denied : Text
  pub active_zone_interfaces : List (Text × List Text)
  pub active_zone_sources : List (Text × List Text)
  pub active_policies : List Text
  pub network_manager : NetworkManagerState
  pub vpn : VpnState
  pub sockets : SocketState
  pub security_signals : SecuritySignalsState
  pub evidence_quality : EvidenceQualityState
  pub runtime_zones : List (Text × ZoneState)
  pub permanent_zones : List (Text × ZoneState)
  pub errors : List Text

-- A default-constructed state.
abbrev pub no_network_manager : NetworkManagerState
no_network_manager = record { available = false; devices = []; diagnostic = [] }

abbrev pub no_vpn : VpnState
no_vpn = record {
  nordvpn_installed = false;
  interface_scan_available = false;
  active_tunnel_interfaces = [];
  diagnostic = [];
}

abbrev pub no_sockets : SocketState
no_sockets = record {
  available = false;
  listeners = [];
  process_metadata_requested = false;
  diagnostic = [];
}

abbrev pub no_signals : SecuritySignalsState
no_signals = record {
  kernel_journal_available = false;
  kernel_journal_status = JournalQueryStatus.unavailable;
  kernel_journal_truncated = false;
  kernel_drop_or_reject_events = 0;
  kernel_denial_unique_sources = 0;
  kernel_denial_unique_destination_ports = 0;
  firewalld_journal_available = false;
  firewalld_journal_status = JournalQueryStatus.unavailable;
  firewalld_journal_truncated = false;
  firewalld_service_events = 0;
  diagnostic = [];
}

abbrev pub no_evidence_quality : EvidenceQualityState
no_evidence_quality = record {
  time_sync_status_available = false;
  time_synchronized = false;
  journald_service_available = false;
  diagnostic = [];
}

abbrev pub no_state : FirewallState
no_state = record {
  operating_mode = normal;
  operating_mode_status = defaulted;
  operating_mode_diagnostic = [];
  installed = false;
  active = false;
  enabled = false;
  panic = false;
  permanent_config_valid = false;
  permanent_config_checked = false;
  installation_status = ObservationStatus.unavailable;
  service_state = ObservationStatus.unavailable;
  service_enablement = ObservationStatus.unavailable;
  panic_state = ObservationStatus.unavailable;
  permanent_config = ObservationStatus.unavailable;
  default_zone_status = ObservationStatus.unavailable;
  denied_logging_status = ObservationStatus.unavailable;
  active_zones_status = ObservationStatus.unavailable;
  runtime_zones_status = ObservationStatus.unavailable;
  permanent_zones_status = ObservationStatus.unavailable;
  active_policies_status = ObservationStatus.unavailable;
  default_zone = [];
  log_denied = [];
  active_zone_interfaces = [];
  active_zone_sources = [];
  active_policies = [];
  network_manager = no_network_manager;
  vpn = no_vpn;
  sockets = no_sockets;
  security_signals = no_signals;
  evidence_quality = no_evidence_quality;
  runtime_zones = [];
  permanent_zones = [];
  errors = [];
}
