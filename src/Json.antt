-- ===== src/Json.antt =====
-- src/ui/dashboard_json_support.hpp: escaping, and the words of the JSON contracts.
pub mod Escape
use fedora_firewall_control.Text.{Text, lit}
use fedora_firewall_control.Firewall.{ObservationStatus, available, partial, unavailable}
use fedora_firewall_control.Snapshot.{
  DashboardRisk, DefconReadiness, FindingSeverity, FindingCategory, MenuDestination,
}

unfoldable pub evidence_status : ObservationStatus → Text
evidence_status ObservationStatus.available = lit "available"
evidence_status ObservationStatus.partial = lit "partial"
evidence_status ObservationStatus.unavailable = lit "unavailable"

unfoldable pub risk_level : DashboardRisk → Text
risk_level DashboardRisk.ready = lit "ready"
risk_level DashboardRisk.review = lit "review_required"
risk_level DashboardRisk.blocked = lit "blocked"

unfoldable pub readiness : DefconReadiness → Text
readiness DefconReadiness.not_evaluated = lit "not_evaluated"
readiness DefconReadiness.ready = lit "ready"
readiness DefconReadiness.not_ready = lit "not_ready"

unfoldable pub severity : FindingSeverity → Text
severity FindingSeverity.critical = lit "critical"
severity FindingSeverity.high = lit "high"
severity FindingSeverity.medium = lit "medium"
severity FindingSeverity.low = lit "low"
severity FindingSeverity.information = lit "information"

unfoldable pub category : FindingCategory → Text
category FindingCategory.isolation = lit "isolation"
category FindingCategory.firewall = lit "firewall_failure"
category FindingCategory.exposure = lit "firewall_exposure"
category FindingCategory.listener = lit "listener_exposure"
category FindingCategory.change = lit "configuration_change"
category FindingCategory.evidence_gap = lit "evidence_gap"
category FindingCategory.hygiene = lit "hygiene"

unfoldable pub destination : MenuDestination → Text
destination MenuDestination.readiness = lit "readiness"
destination MenuDestination.signals = lit "signals"
destination MenuDestination.firewall = lit "firewall.active_openings"
destination MenuDestination.network = lit "network"
destination MenuDestination.evidence = lit "evidence"
destination MenuDestination.settings = lit "settings"
destination MenuDestination.emergency = lit "emergency"
