-- ===== src/Threat/Coverage.antt =====
-- `assess_threat_evidence`: the gaps of the firewall evidence and of the host's time and journal.
use fedora_firewall_control.Common.{not, List, [], ◌∷◌, ◌++◌, if◌then◌else◌, length, is_empty}
use fedora_firewall_control.Text.{lit}
use fedora_firewall_control.Text.Decimal.{to_string as decimal}
use fedora_firewall_control.Firewall.{FirewallState, ObservationStatus, observation_available}
use fedora_firewall_control.Threat.{finding, ThreatFinding, coverage_gap, scope_limit}

unfoldable pub service_findings : FirewallState → List ThreatFinding
service_findings state =
    if not state.installed
    then finding coverage_gap (lit "firewall-cmd unavailable")
        (lit "The firewalld command interface could not be queried.")
        (lit "A missing firewall view can hide both permissive and restrictive policy.")
        (lit "Restore firewalld tooling, then collect a fresh posture snapshot.")
      ∷ []
    else if not state.active
    then finding coverage_gap (lit "firewalld runtime policy unavailable")
        (lit "The firewall service was not confirmed running.")
        (lit
          "A dashboard cannot infer active filtering policy while the service state is unavailable or inactive.")
        (lit "Verify firewalld service state and its intended host firewall policy.")
      ∷ []
    else []

-- A finding unless the observation is available.
abbrev unless_available : ObservationStatus → ThreatFinding → List ThreatFinding
unless_available status gap = if observation_available status then [] else gap ∷ []

unfoldable pub active_zones_findings : FirewallState → List ThreatFinding
active_zones_findings state = unless_available state.active_zones_status (
    finding coverage_gap (lit "Active-zone collection unavailable")
      (lit "The active firewalld zone query did not return a usable result.")
      (lit "Interface and source bindings can change which policy applies to traffic.")
      (lit "Restore firewall query access and compare active zones with NetworkManager."))

unfoldable pub runtime_zones_findings : FirewallState → List ThreatFinding
runtime_zones_findings state = unless_available state.runtime_zones_status (
    finding coverage_gap (lit "Runtime-zone collection unavailable")
      (lit "Runtime firewalld zone policy was not collected.")
      (lit "A quiet exposure summary can be a false negative without runtime policy evidence.")
      (lit "Restore firewall query access before drawing firewall exposure conclusions."))

unfoldable pub permanent_zones_findings : FirewallState → List ThreatFinding
permanent_zones_findings state = unless_available state.permanent_zones_status (
    finding coverage_gap (lit "Permanent-zone collection unavailable")
      (lit "Permanent firewalld zone policy was not collected.")
      (lit "Drift cannot be assessed without both runtime and permanent policy views.")
      (lit "Run a complete posture collection after restoring firewall query access."))

unfoldable pub policies_findings : FirewallState → List ThreatFinding
policies_findings state =
    if not (observation_available state.active_policies_status)
    then finding coverage_gap (lit "Active policy inventory unavailable")
        (lit "Active firewalld policy names were not collected.")
        (lit "Policies can create host-bound or forwarding exposure outside zone settings.")
        (lit "Collect policy inventory and inspect policy details before relying on readiness.")
      ∷ []
    else if not (is_empty state.active_policies)
    then finding coverage_gap (lit "Active policy details not assessed")
        (decimal (length state.active_policies)
          ++ lit " active firewalld policy name(s) were found.")
        (lit
          "A named policy can allow services, ports, forwarding, or masquerading without proving hostile activity.")
        (lit "Inspect each policy's ingress, egress, target, services, ports, and rich rules.")
      ∷ []
    else []

unfoldable pub panic_findings : FirewallState → List ThreatFinding
panic_findings state = unless_available state.panic_state (
    finding coverage_gap (lit "Panic-mode state unavailable")
      (lit "The panic-mode query did not return a usable result.")
      (lit "An unavailable query must not be interpreted as panic mode being off.")
      (lit "Restore firewall query access and verify the state directly."))

unfoldable pub time_findings : FirewallState → List ThreatFinding
time_findings state =
    if not state.evidence_quality.time_sync_status_available
    then finding coverage_gap (lit "Time synchronization status unavailable")
        (lit "The host could not report whether NTP synchronization is active.")
        (lit
          "Unreliable timestamps make correlation harder and can cause events to be misattributed or missed across sources.")
        (lit
          "Restore access to time status and verify the host clock before correlating local and network evidence.")
      ∷ []
    else if not state.evidence_quality.time_synchronized
    then finding coverage_gap (lit "Host time is not synchronized")
        (lit "The operating system reports that NTP synchronization is not established.")
        (lit
          "Cross-source event timelines can be wrong when clocks diverge, weakening both positive and negative conclusions.")
        (lit "Restore approved time synchronization, then record a fresh assessment window.")
      ∷ []
    else []

unfoldable pub journald_findings : FirewallState → List ThreatFinding
journald_findings state =
    if state.evidence_quality.journald_service_available
    then []
    else finding coverage_gap (lit "systemd-journald is not active")
        (lit "The local journal service was not reported active.")
        (lit "Event retention and correlation may be incomplete, producing false-negative risk.")
        (lit
          "Restore journald according to the host's approved logging policy before relying on journal-based findings.")
      ∷ []

unfoldable pub scope_finding : ThreatFinding
scope_finding =
    finding scope_limit (lit "Outbound discovery behavior is outside this snapshot")
      (lit
        "This console snapshots local listeners and bounded logs; it does not retain process execution, connection-flow, or packet-capture telemetry over time.")
      (lit
        "A quiet listener or denial view cannot rule out outbound or lateral service discovery, including port scanning.")
      (lit
        "Where authorized, correlate process execution with connection/flow telemetry or packet capture in a defined time window.")
