-- ===== src/Threat/Exposure.antt =====
-- `assess_threat_evidence`: the exposure of the applicable zones and the policy drift.
use fedora_firewall_control.Common.{◌&&◌, List, [], ◌∷◌, ◌++◌, ltb, if◌then◌else◌, is_empty}
use fedora_firewall_control.Text.{lit}
use fedora_firewall_control.Text.Decimal.{to_string as decimal}
use fedora_firewall_control.Firewall.{FirewallState, observation_available}
use fedora_firewall_control.Ports.{ServiceDatabase}
use fedora_firewall_control.Threat.{finding, ThreatFinding, candidate_alert, exposure, scope_limit}
use fedora_firewall_control.Threat.Zones.{
  runtime_differs_from_permanent, broad_active_port_ranges, active_zone_forwarding_enabled,
  active_zone_forwarding_has_path, joined, active_protocol_or_source_port_rules,
  applicable_rich_rule_count,
}

unfoldable pub broad_findings : ServiceDatabase → FirewallState → List ThreatFinding
unfolding broad_active_port_ranges joined
broad_findings service_database state =
    if is_empty (broad_active_port_ranges service_database state)
    then []
    else finding exposure (lit "Broad inbound port range configured")
        (lit "Active-zone range(s): "
          ++ joined (broad_active_port_ranges service_database state)
          ++ lit ". This policy can permit many services if they bind beyond loopback.")
        (lit
          "A broad range can be intentional for a lab, game, or temporary workflow; it does not prove any of those ports have a listening process today.")
        (lit
          "Confirm the business need, scope it to the smallest required ports and interfaces, and review it as a deliberate firewall change.")
      ∷ []

unfoldable pub selector_findings : FirewallState → List ThreatFinding
unfolding active_protocol_or_source_port_rules joined
selector_findings state =
    if is_empty (active_protocol_or_source_port_rules state)
    then []
    else finding exposure (lit "Active-zone protocol or source-port rules")
        (lit "Active-zone selector(s): "
          ++ joined (active_protocol_or_source_port_rules state)
          ++ lit ".")
        (lit
          "Protocol and source-port selectors can be deliberate policy constraints; they do not prove that a matching service is listening or that traffic is hostile.")
        (lit
          "Review the matching zone target, services, ports, rich rules, and intended traffic direction.")
      ∷ []

unfoldable pub rich_rule_findings : FirewallState → List ThreatFinding
unfolding applicable_rich_rule_count
rich_rule_findings state =
    if ltb 0 (applicable_rich_rule_count state)
    then finding exposure (lit "Applicable-zone rich rules")
        (decimal (applicable_rich_rule_count state)
          ++ lit " rich rule(s) are configured in zones applicable to current or fallback traffic.")
        (lit
          "A rich rule can restrict, log, forward, reject, drop, or permit traffic; a count alone does not establish which effect applies to a specific flow.")
        (lit
          "Review each rule's action, family, source, destination, service, port, protocol, and priority before relying on a clean exposure conclusion.")
      ∷ []
    else []

unfoldable pub forwarding_findings : FirewallState → List ThreatFinding
unfolding active_zone_forwarding_enabled active_zone_forwarding_has_path
forwarding_findings state =
    if active_zone_forwarding_enabled state
    then if active_zone_forwarding_has_path state
      then finding exposure (lit "Intra-zone forwarding has an active path")
          (lit
            "At least one active firewalld zone permits forwarding between multiple interfaces or sources assigned to that same zone.")
          (lit
            "This can be a legitimate multi-interface, virtual-machine, or container arrangement; it does not by itself prove IP routing or unauthorized transit.")
          (lit
            "Verify which interfaces and sources share the zone, and whether they are intended to communicate through this host.")
        ∷ []
      else finding scope_limit (lit "Intra-zone forwarding topology not established")
          (lit
            "Forwarding is configured, but the collected bindings did not establish a multi-member interface/source pair.")
          (lit
            "Selector count is not verified route topology; a source selector can represent multiple hosts and routing may change outside this snapshot.")
          (lit
            "Verify routes, interface membership, and intended same-zone traffic before treating forwarding as inactive.")
        ∷ []
    else []

unfoldable pub drift_findings : FirewallState → List ThreatFinding
unfolding runtime_differs_from_permanent
drift_findings state =
    if observation_available state.runtime_zones_status
      && observation_available state.permanent_zones_status
      && runtime_differs_from_permanent state
    then finding candidate_alert (lit "Firewall runtime/permanent drift")
        (lit "At least one runtime zone differs from its permanent configuration.")
        (lit
          "An administrator may have made a legitimate temporary change; drift alone is not malicious.")
        (lit
          "Review the change timestamp, author, firewalld journal, and intended change record before classifying it.")
      ∷ []
    else []
