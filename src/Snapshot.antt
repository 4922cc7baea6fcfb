-- ===== src/Snapshot.antt =====
-- src/ui/dashboard_state.cpp and include/ffc/dashboard_state.hpp: the dashboard snapshot. The
-- times, the host name, the version and the rendering of times are not modelled.
pub mod Evidence
pub mod Findings
pub mod Build
use fedora_firewall_control.Common.{not}
use fedora_firewall_control.Text.{Text, lit}
use fedora_firewall_control.Firewall.{ObservationStatus}

pub data DashboardRisk : Type 0 where
  ready review blocked : DashboardRisk

pub data DefconReadiness : Type 0 where
  not_evaluated ready not_ready : DefconReadiness

pub data FindingSeverity : Type 0 where
  critical high medium low information : FindingSeverity

pub data FindingCategory : Type 0 where
  isolation firewall exposure listener change evidence_gap hygiene : FindingCategory

pub data MenuDestination : Type 0 where
  readiness signals firewall network evidence settings emergency : MenuDestination

pub record DashboardFinding : Type 0 where
  pub severity : FindingSeverity
  pub category : FindingCategory
  pub id : Text
  pub summary : Text
  pub destination : MenuDestination

pub record DashboardRecommendation : Type 0 where
  pub severity : FindingSeverity
  pub category : FindingCategory
  pub finding_id : Text
  pub summary : Text
  pub destination : MenuDestination

pub record ComponentEvidence : Type 0 where
  pub component : Text
  pub status : ObservationStatus
  pub detail : Text

unfoldable pub risk_label : DashboardRisk → Text
risk_label DashboardRisk.ready = lit "READY FOR REVIEW"
risk_label review = lit "REVIEW REQUIRED"
risk_label blocked = lit "READINESS BLOCKED"

unfoldable pub defcon_label : DefconReadiness → Text
defcon_label not_evaluated = lit "NOT EVALUATED"
defcon_label DefconReadiness.ready = lit "READY"
defcon_label not_ready = lit "NOT READY"

unfoldable pub destination_label : MenuDestination → Text
destination_label readiness = lit "Readiness"
destination_label signals = lit "Signals"
destination_label MenuDestination.firewall = lit "Firewall"
destination_label network = lit "Network and VPN"
destination_label evidence = lit "Evidence"
destination_label settings = lit "Settings"
destination_label emergency = lit "Emergency"
