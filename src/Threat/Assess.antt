-- ===== src/Threat/Assess.antt =====
-- `assess_threat_evidence` of src/security/threat_assessment.cpp, in the order of the source.
pub mod Observed
use fedora_firewall_control.Common.{List, [], ◌∷◌, ◌++◌}
use fedora_firewall_control.Text.{Text, lit}
use fedora_firewall_control.Firewall.{FirewallState}
use fedora_firewall_control.Ports.{ServiceDatabase}
use fedora_firewall_control.Threat.{ThreatFinding, ThreatAssessment}
use fedora_firewall_control.Threat.Coverage.{
  service_findings, active_zones_findings, runtime_zones_findings, permanent_zones_findings,
  policies_findings, panic_findings, time_findings, journald_findings, scope_finding,
}
use fedora_firewall_control.Threat.Telemetry.{denial_finding, listener_findings, journal_findings}
use fedora_firewall_control.Threat.Exposure.{
  broad_findings, selector_findings, rich_rule_findings, forwarding_findings, drift_findings,
}

unfoldable pub verdict_rules : List Text
verdict_rules =
    lit "True positive: a candidate alert corroborated as malicious by independent evidence."
    ∷ lit "False positive: a candidate alert explained by expected or benign activity."
    ∷ lit "True negative: no alert plus independent evidence that no relevant incident occurred."
    ∷ lit "False negative: no alert followed by later confirmation of a relevant incident."
    ∷ []

-- The findings up to the scope limit.
unfoldable pub evidence_findings : FirewallState → List ThreatFinding
evidence_findings state =
    service_findings state
    ++ active_zones_findings state
    ++ runtime_zones_findings state
    ++ permanent_zones_findings state
    ++ policies_findings state
    ++ panic_findings state
    ++ (denial_finding state ∷ [])
    ++ listener_findings state
    ++ time_findings state
    ++ journald_findings state

-- The findings behind it.
unfoldable pub policy_findings : ServiceDatabase → FirewallState → List ThreatFinding
policy_findings service_database state =
    broad_findings service_database state
    ++ selector_findings state
    ++ rich_rule_findings state
    ++ forwarding_findings state
    ++ drift_findings state
    ++ journal_findings state

unfoldable pub assess_threat_evidence : ServiceDatabase → FirewallState → ThreatAssessment
unfolding evidence_findings policy_findings
assess_threat_evidence service_database state = record {
  findings = evidence_findings state ++ (scope_finding ∷ policy_findings service_database state);
  verdict_rules = verdict_rules;
}
