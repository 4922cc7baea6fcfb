-- ===== src/Snapshot/Build.antt =====
-- `make_dashboard_snapshot`: the recommendations, the risk and the readiness.
pub mod Order
pub mod Risk
use fedora_firewall_control.Snapshot.Evidence.{overall_evidence, evidence_components}
use fedora_firewall_control.Snapshot.Findings.{blockers, review_items, coverage_gaps}
use fedora_firewall_control.Common.{
  ℕ, Bool, not, ◌&&◌, List, [], ◌∷◌, ◌++◌, map, ltb, if◌then◌else◌, is_empty,
}
use fedora_firewall_control.Mode.{is_hostile}
use fedora_firewall_control.Firewall.{FirewallState, ObservationStatus}
use fedora_firewall_control.Snapshot.{
  DashboardRisk, DefconReadiness, FindingCategory, DashboardFinding, DashboardRecommendation,
  ComponentEvidence, review, blocked, not_evaluated, not_ready, isolation, exposure, listener,
  change, evidence_gap, hygiene,
}

unfoldable pub recommendation_priority : DashboardRecommendation → ℕ
recommendation_priority r = elim r.category [
  | isolation ↦ 800
  | FindingCategory.firewall ↦ 750
  | exposure ↦ 700
  | listener ↦ 600
  | change ↦ 500
  | evidence_gap ↦ 300
  | hygiene ↦ 100
]

-- `add_recommendation`
unfoldable pub recommend : DashboardFinding → DashboardRecommendation
recommend f = record {
  severity = f.severity;
  category = f.category;
  finding_id = f.id;
  summary = f.summary;
  destination = f.destination;
}

-- `std::stable_sort` by falling priority: an element goes in front of those that rank no higher,
-- and the list is built from the back.
unfoldable pub insert_stable :
    DashboardRecommendation → List DashboardRecommendation → List DashboardRecommendation
unfolding recommendation_priority
insert_stable x [] = x ∷ []
insert_stable x (y ∷ ys) =
    let rest = insert_stable x ys in
    if ltb (recommendation_priority x) (recommendation_priority y) then y ∷ rest else x ∷ y ∷ ys

unfoldable pub stable_sort : List DashboardRecommendation → List DashboardRecommendation
unfolding insert_stable
stable_sort [] = []
stable_sort (x ∷ xs) = insert_stable x (stable_sort xs)

pub record DashboardSnapshot : Type 0 where
  pub firewall : FirewallState
  pub risk : DashboardRisk
  pub defcon_readiness : DefconReadiness
  pub overall_evidence : ObservationStatus
  pub blockers : List DashboardFinding
  pub review_items : List DashboardFinding
  pub coverage_gaps : List DashboardFinding
  pub recommendations : List DashboardRecommendation
  pub evidence_components : List ComponentEvidence

unfoldable pub risk_of : List DashboardFinding → List DashboardFinding → DashboardRisk
risk_of blocking reviews =
    if not (is_empty blocking)
    then blocked
    else if not (is_empty reviews)
    then review
    else DashboardRisk.ready

unfoldable pub defcon_of : Bool → List DashboardFinding → List DashboardFinding → DefconReadiness
defcon_of hostile blocking reviews =
    if hostile
    then if is_empty blocking && is_empty reviews then DefconReadiness.ready else not_ready
    else not_evaluated

unfoldable pub recommendations : FirewallState → List DashboardRecommendation
unfolding stable_sort recommend
recommendations state =
    stable_sort (map recommend (blockers state ++ review_items state ++ coverage_gaps state))

unfoldable pub make_dashboard_snapshot : FirewallState → DashboardSnapshot
unfolding recommendations risk_of defcon_of blockers review_items coverage_gaps
make_dashboard_snapshot state = record {
  firewall = state;
  risk = risk_of (blockers state) (review_items state);
  defcon_readiness =
      defcon_of (is_hostile state.operating_mode) (blockers state) (review_items state);
  overall_evidence = overall_evidence (evidence_components state);
  blockers = blockers state;
  review_items = review_items state;
  coverage_gaps = coverage_gaps state;
  recommendations = recommendations state;
  evidence_components = evidence_components state;
}
