-- ===== src/Tests/Collectors.antt =====
-- The collectors at concrete answers of the tools.
use fedora_firewall_control.Common.{
  ℕ, true, false, [], ◌∷◌, ◌≡◌, refl, ◌≤◌, ◌+◌, length, filter, if◌then◌else◌,
}
use fedora_firewall_control.Text.{Text, lit}
use fedora_firewall_control.Text.Order.{texts_eq}
use fedora_firewall_control.Command.{CommandResult, CommandRunner, pos}
use fedora_firewall_control.Dict.{has_key}
use fedora_firewall_control.Mode.{normal, OperatingModeLoadStatus}
use fedora_firewall_control.Firewall.{
  ObservationStatus, SocketState, no_sockets, no_evidence_quality,
}
use fedora_firewall_control.Backend.{
  landing, complete, with_default_zone, with_active_zones, with_runtime_zones,
}
use fedora_firewall_control.Backend.Inspect.{inspect}
use fedora_firewall_control.Backend.Inspect.Sound.{
  inspect-IsUnobserved, inspect-has_key, IsUnobserved,
}
use fedora_firewall_control.Posture.{Collected, collect}
use fedora_firewall_control.Posture.Composition.{collect-no_errors, IsCollected}
use fedora_firewall_control.Sockets.{is_network_reachable}
use fedora_firewall_control.Sockets.Summary.{summarize_listener_exposure}
use fedora_firewall_control.Sockets.Summary.Counts.{
  summarize_listener_exposure_counts, is_multicast, has_process,
}
use fedora_firewall_control.Signals.{summarize_kernel_denials}
use fedora_firewall_control.Tests.States.{clean_host, web_listener}

abbrev answer : ℕ → Text → CommandResult
answer code out = record { exit_code = pos code; stdout_text = out; stderr_text = [] }

-- firewalld is installed and stopped.
abbrev stopped : CommandRunner
stopped args =
    if texts_eq args (lit "firewall-cmd" ∷ lit "--version" ∷ [])
    then answer 0 (lit "2.1.3")
    else answer 252 (lit "not running")

stopped-active : (inspect stopped complete).active ≡ false
unfolding inspect texts_eq with_runtime_zones with_active_zones with_default_zone lit
stopped-active = refl

inspect-IsUnobserved_example : IsUnobserved (inspect stopped complete)
inspect-IsUnobserved_example = inspect-IsUnobserved stopped complete stopped-active

-- firewalld runs, with one zone.
abbrev running : CommandRunner
running args =
    if texts_eq args (lit "firewall-cmd" ∷ lit "--state" ∷ [])
    then answer 0 (lit "running")
    else if texts_eq args (lit "firewall-cmd" ∷ lit "--get-default-zone" ∷ [])
    then answer 0 (lit "public")
    else if texts_eq args (lit "firewall-cmd" ∷ lit "--list-all-zones" ∷ [])
    then answer 0 (lit "public\n  target: default\n")
    else answer 0 []

running-default : (inspect running landing).default_zone_status ≡ ObservationStatus.available
unfolding inspect texts_eq with_runtime_zones with_active_zones with_default_zone lit
running-default = refl

running-zones : (inspect running landing).runtime_zones_status ≡ ObservationStatus.available
unfolding inspect texts_eq with_runtime_zones with_active_zones with_default_zone lit
running-zones = refl

inspect-has_key_example :
    has_key (inspect running landing).default_zone (inspect running landing).runtime_zones ≡ true
inspect-has_key_example = inspect-has_key running landing running-default running-zones

-- What the collectors say of the clean host, once without journald.
abbrev collected : Collected
collected = record {
  operating_mode = record {
    mode = normal;
    status = OperatingModeLoadStatus.defaulted;
    diagnostic = [];
  };
  vpn = clean_host.vpn;
  sockets = clean_host.sockets;
  security_signals = clean_host.security_signals;
  network_manager = clean_host.network_manager;
  evidence_quality = clean_host.evidence_quality;
}

abbrev without_journald : Collected
without_journald = record collected { evidence_quality = no_evidence_quality }

collected-errors : (collect complete clean_host collected).errors ≡ []
unfolding collect lit
collected-errors = refl

collect-no_errors_example : IsCollected complete clean_host collected
collect-no_errors_example = collect-no_errors complete clean_host collected collected-errors

abbrev listening : SocketState
listening = record no_sockets { available = true; listeners = web_listener ∷ web_listener ∷ [] }

summarize_listener_exposure_counts_example :
    ((summarize_listener_exposure listening).network_reachable_bindings
      ≡ length (filter is_network_reachable listening.listeners))
    × ((summarize_listener_exposure listening).multicast_only_bindings
        ≡ length (filter is_multicast listening.listeners))
    × ((summarize_listener_exposure listening).process_attributed_network_bindings
        ≡ length (filter has_process listening.listeners))
    × ((summarize_listener_exposure listening).non_loopback_bindings
        ≡ (summarize_listener_exposure listening).network_reachable_bindings
          + (summarize_listener_exposure listening).multicast_only_bindings)
    × ((summarize_listener_exposure listening).logical_network_services
        ≤ (summarize_listener_exposure listening).network_reachable_bindings)
    × ((summarize_listener_exposure listening).process_attributed_network_bindings
        ≤ (summarize_listener_exposure listening).network_reachable_bindings)
summarize_listener_exposure_counts_example = summarize_listener_exposure_counts listening

-- Two bindings of one service.
listening-services : (summarize_listener_exposure listening).logical_network_services ≡ 1
unfolding summarize_listener_exposure lit
listening-services = refl

abbrev journal : Text
journal = lit "-- Boot 1 --\nDROP SRC=10.0.0.1 DPT=22\nDROP SRC=10.0.0.1 DPT=23\n"

journal-sources : (summarize_kernel_denials journal).unique_sources ≡ 1
unfolding summarize_kernel_denials lit
journal-sources = refl

abbrev with_journal : CommandRunner
with_journal args = answer 0 journal
