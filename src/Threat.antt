-- ===== src/Threat.antt =====
-- src/security/threat_assessment.cpp and include/ffc/threat_assessment.hpp: the kinds of finding
-- and the sums over the zones; the review itself is in the modules below.
pub mod Zones
pub mod Drift
pub mod Coverage
pub mod Telemetry
pub mod Exposure
pub mod Assess
use fedora_firewall_control.Common.{List}
use fedora_firewall_control.Text.{Text, lit}

pub data ThreatFindingKind : Type 0 where
  candidate_alert exposure coverage_gap scope_limit no_alert : ThreatFindingKind

pub record ThreatFinding : Type 0 where
  pub kind : ThreatFindingKind
  pub title : Text
  pub detail : Text
  pub false_positive_context : Text
  pub validation_step : Text

pub record ThreatAssessment : Type 0 where
  pub findings : List ThreatFinding
  pub verdict_rules : List Text

abbrev pub finding : ThreatFindingKind → Text → Text → Text → Text → ThreatFinding
finding kind title detail context step = record {
  kind = kind;
  title = title;
  detail = detail;
  false_positive_context = context;
  validation_step = step;
}

unfoldable pub to_string : ThreatFindingKind → Text
to_string candidate_alert = lit "CANDIDATE ALERT"
to_string exposure = lit "EXPOSURE"
to_string coverage_gap = lit "COVERAGE GAP"
to_string scope_limit = lit "SCOPE LIMIT"
to_string no_alert = lit "NO ALERT"
