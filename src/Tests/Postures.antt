-- ===== src/Tests/Postures.antt =====
-- The readiness, the threat review and the dashboard at concrete states.
use fedora_firewall_control.Common.{
  true, none, ◌≡◌, refl, ◌≤◌, ◌↔◌, All, filter, not, ◌&&◌, ◌||◌, is_empty, arith,
}
use mathlib.Core.List.{Perm}
use fedora_firewall_control.Text.{lit, text_eq}
use fedora_firewall_control.Mode.{hostile_network, normal}
use fedora_firewall_control.Firewall.{observation_available}
use fedora_firewall_control.Firewall.Applicable.{
  is_zone_applicable, is_zone_active, default_zone_applies, applicable_zone_details_available,
}
use fedora_firewall_control.Firewall.ZonePolicy.{zone_policies_equal}
use fedora_firewall_control.Firewall.ZonePolicy.Equality.{zone_policies_equal_iff, IsSamePolicy}
use fedora_firewall_control.Firewall.Applicable.Membership.{is_zone_applicable_iff}
use fedora_firewall_control.Readiness.Assess.{readiness_exit_code}
use fedora_firewall_control.Readiness.Sound.{readiness_exit_code-zero, IsServing, IsQuiet, IsTight}
use fedora_firewall_control.Readiness.Modes.{readiness_exit_code-hostile, with_mode}
use fedora_firewall_control.Readiness.Drift.{runtime_matches_permanent}
use fedora_firewall_control.Ports.{ServiceDatabase}
use fedora_firewall_control.Threat.Zones.{runtime_differs_from_permanent}
use fedora_firewall_control.Threat.Drift.{differs-not-matches}
use fedora_firewall_control.Threat.Assess.Observed.{
  assess_threat_evidence-IsObserved, IsObserved, IsNoGap,
}
use fedora_firewall_control.Snapshot.Build.{make_dashboard_snapshot, recommendations}
use fedora_firewall_control.Snapshot.Build.Order.{
  recommendations_lem, unsorted, IsFalling, of_priority,
}
use fedora_firewall_control.Snapshot.Build.Risk.{risk-IsReady, risk-IsPlain, IsReady, IsPlain}
use fedora_firewall_control.Threat.{no_alert}
use fedora_firewall_control.Snapshot.{DashboardRisk}
use fedora_firewall_control.Tests.States.{clean_host, open_host, open_zone, reordered_zone}
use fedora_firewall_control.Threat.Assess.{assess_threat_evidence}
use fedora_firewall_control.Threat.Telemetry.{denial_finding, listener_findings, journal_findings}
use fedora_firewall_control.Readiness.Listeners.{listener_check, multicast_check, kernel_check}
use fedora_firewall_control.Readiness.Policy.{
  inbound_check, rich_rules_check, target_check, forward_ports_check, forwarding_check,
  masquerade_check, policies_check, coverage_check, aligned_check, diagnostics_check,
}
use fedora_firewall_control.Readiness.Service.{
  mode_check, installed_check, active_check, enabled_check, panic_check, config_check,
  default_zone_check,
}
use fedora_firewall_control.Readiness.Transport.{
  network_manager_check, transport_check, tunnel_check, assignments_check, devices_check,
  sources_check,
}
use fedora_firewall_control.Threat.Coverage.{
  service_findings, active_zones_findings, runtime_zones_findings, permanent_zones_findings,
  policies_findings, panic_findings, time_findings, journald_findings, scope_finding,
}
use fedora_firewall_control.Threat.Exposure.{
  broad_findings, selector_findings, rich_rule_findings, forwarding_findings, drift_findings,
}

clean_host-code : readiness_exit_code clean_host ≡ 0
unfolding readiness_exit_code mode_check installed_check active_check enabled_check panic_check
    config_check default_zone_check network_manager_check transport_check tunnel_check
    assignments_check devices_check sources_check listener_check multicast_check kernel_check
    inbound_check rich_rules_check target_check forward_ports_check forwarding_check
    masquerade_check policies_check coverage_check aligned_check diagnostics_check lit
clean_host-code = refl

readiness_exit_code-zero_example : IsServing clean_host × IsQuiet clean_host × IsTight clean_host
readiness_exit_code-zero_example = readiness_exit_code-zero clean_host clean_host-code

open_host-code : readiness_exit_code open_host ≡ 1
unfolding readiness_exit_code mode_check installed_check active_check enabled_check panic_check
    config_check default_zone_check network_manager_check transport_check tunnel_check
    assignments_check devices_check sources_check listener_check multicast_check kernel_check
    inbound_check rich_rules_check target_check forward_ports_check forwarding_check
    masquerade_check policies_check coverage_check aligned_check diagnostics_check lit
open_host-code = refl

readiness_exit_code-hostile_example :
    readiness_exit_code (with_mode open_host normal)
    ≤ readiness_exit_code (with_mode open_host hostile_network)
readiness_exit_code-hostile_example = readiness_exit_code-hostile open_host

zone_policies_equal_iff_example :
    (zone_policies_equal open_zone reordered_zone ≡ true) ↔ IsSamePolicy open_zone reordered_zone
zone_policies_equal_iff_example = zone_policies_equal_iff open_zone reordered_zone

open_zone-equal : zone_policies_equal open_zone reordered_zone ≡ true
unfolding zone_policies_equal lit
open_zone-equal = refl

is_zone_applicable_iff_example : is_zone_applicable clean_host (lit "public") ≡ (
    is_zone_active clean_host (lit "public")
    || (default_zone_applies clean_host
        && observation_available clean_host.default_zone_status
        && not (is_empty clean_host.default_zone)
        && text_eq clean_host.default_zone (lit "public")))
is_zone_applicable_iff_example = is_zone_applicable_iff clean_host (lit "public")

differs-not-matches_example :
    runtime_differs_from_permanent open_host ≡ not (runtime_matches_permanent open_host)
differs-not-matches_example = differs-not-matches open_host

abbrev no_services : ServiceDatabase
no_services port protocol = none

clean_host-IsNoGap : All IsNoGap (assess_threat_evidence no_services clean_host).findings
unfolding assess_threat_evidence service_findings active_zones_findings runtime_zones_findings
    permanent_zones_findings policies_findings panic_findings denial_finding listener_findings
    time_findings journald_findings scope_finding broad_findings selector_findings
    rich_rule_findings forwarding_findings drift_findings journal_findings lit
clean_host-IsNoGap = ground arith

assess_threat_evidence-IsObserved_example : IsObserved clean_host
assess_threat_evidence-IsObserved_example =
    assess_threat_evidence-IsObserved no_services clean_host clean_host-IsNoGap

clean_host-denial : (denial_finding clean_host).kind ≡ no_alert
unfolding denial_finding lit
clean_host-denial = refl

recommendations_lem_example :
    Perm (unsorted open_host) (recommendations open_host)
    × IsFalling 800 (recommendations open_host)
    × (of_priority 700 (recommendations open_host) ≡ of_priority 700 (unsorted open_host))
recommendations_lem_example = recommendations_lem open_host 700

clean_host-risk : (make_dashboard_snapshot clean_host).risk ≡ DashboardRisk.ready
unfolding make_dashboard_snapshot lit
clean_host-risk = refl

risk-IsReady_example : IsReady clean_host
risk-IsReady_example = risk-IsReady clean_host clean_host-risk

clean_host-details : applicable_zone_details_available clean_host ≡ true
unfolding applicable_zone_details_available lit
clean_host-details = refl

risk-IsPlain_example :
    All
      (λ z. IsPlain z.1)
      (filter (λ z. is_zone_applicable clean_host z.0) clean_host.runtime_zones)
risk-IsPlain_example = risk-IsPlain clean_host clean_host-risk clean_host-details
