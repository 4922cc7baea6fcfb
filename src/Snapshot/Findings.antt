-- ===== src/Snapshot/Findings.antt =====
-- The blockers, the review items and the policy gap of `make_dashboard_snapshot`.
use fedora_firewall_control.Common.{
  ℕ, ◌+◌, Bool, false, not, ◌&&◌, ◌||◌, List, [], ◌∷◌, ◌++◌, reverse, ◌==◌, if◌then◌else◌, length,
}
use fedora_firewall_control.Text.{Text, lit, text_eq}
use fedora_firewall_control.Text.Decimal.{to_string as decimal}
use fedora_firewall_control.Firewall.{FirewallState, ZoneState, observation_available}
use fedora_firewall_control.Firewall.Applicable.{
  is_zone_applicable, applicable_zone_details_available,
}
use fedora_firewall_control.Sockets.Summary.{summarize_listener_exposure}
use fedora_firewall_control.Snapshot.{
  FindingSeverity, FindingCategory, MenuDestination, DashboardFinding, critical, high, medium,
  isolation, exposure, listener, readiness,
}
use fedora_firewall_control.Snapshot.Evidence.{evidence_components, gap, component_gaps}

pub record ActiveExposure : Type 0 where
  pub ports : ℕ
  pub protocols : ℕ
  pub rich_rules : ℕ
  pub forwarding : Bool
  pub masquerading : Bool
  pub accept_target : Bool

abbrev pub no_exposure : ActiveExposure
no_exposure = record {
  ports = 0;
  protocols = 0;
  rich_rules = 0;
  forwarding = false;
  masquerading = false;
  accept_target = false;
}

-- One round of the loop of `active_exposure`.
unfoldable pub add_zone : FirewallState → ActiveExposure → Text → ZoneState → ActiveExposure
unfolding is_zone_applicable text_eq
add_zone state e zone_name zone = if not (is_zone_applicable state zone_name) then e else record {
  ports = e.ports + length zone.ports;
  protocols = e.protocols + length zone.protocols;
  rich_rules = e.rich_rules + length zone.rich_rules;
  forwarding = e.forwarding || zone.forward;
  masquerading = e.masquerading || zone.masquerade;
  accept_target = e.accept_target || text_eq zone.target (lit "ACCEPT");
}

unfoldable pub add_zones : FirewallState → ActiveExposure → List (Text × ZoneState) → ActiveExposure
unfolding add_zone
add_zones state e [] = e
add_zones state e ((zone_name, zone) ∷ rest) =
    add_zones state (add_zone state e zone_name zone) rest

unfoldable pub active_exposure : FirewallState → ActiveExposure
unfolding add_zones
active_exposure state = add_zones state no_exposure state.runtime_zones

-- `add_blocker`
abbrev blocker : Text → Text → FindingCategory → DashboardFinding
blocker id summary category = record {
  severity = critical;
  category = category;
  id = id;
  summary = summary;
  destination = readiness;
}

unfoldable pub service_blockers : FirewallState → List DashboardFinding
service_blockers state =
    if not state.installed
    then blocker (lit "firewalld.missing") (lit "Install firewalld before evaluating host policy.")
        FindingCategory.firewall
      ∷ []
    else if not (observation_available state.service_state)
    then blocker (lit "firewalld.state-unavailable")
        (lit "Restore firewalld state collection before relying on posture.")
        FindingCategory.firewall
      ∷ []
    else if not state.active
    then blocker (lit "firewalld.inactive")
        (lit "Start firewalld; current host policy is not being enforced.") FindingCategory.firewall
      ∷ []
    else []

unfoldable pub panic_blockers : FirewallState → List DashboardFinding
panic_blockers state =
    if observation_available state.panic_state && state.panic
    then blocker (lit "firewalld.panic")
        (lit "Panic mode is active; all network traffic may be blocked.") isolation
      ∷ []
    else []

unfoldable pub blockers : FirewallState → List DashboardFinding
unfolding service_blockers panic_blockers
blockers state = service_blockers state ++ panic_blockers state

-- `add_review`
abbrev review_item :
    Text → Text → FindingCategory → MenuDestination → FindingSeverity → DashboardFinding
review_item id summary category destination severity = record {
  severity = severity;
  category = category;
  id = id;
  summary = summary;
  destination = destination;
}

-- `summary.ends_with(":") ? " " : ", "`
separator : Text → Text
separator summary = elim (reverse summary) [
  | [] ↦ lit ", "
  | c ∷ rest ↦ if c == b':' then lit " " else lit ", "
]

abbrev with_part : Bool → Text → Text → Text
with_part present part summary = if present then summary ++ separator summary ++ part else summary

inbound_summary : ActiveExposure → Text
inbound_summary e =
    let start = lit "Review active inbound policy:" in
    let with_ports =
      if e.ports == 0 then start else start ++ lit " " ++ decimal e.ports ++ lit " port rule(s)" in
    let with_protocols =
      with_part (not (e.protocols == 0)) (decimal e.protocols ++ lit " protocol rule(s)")
        with_ports in
    let with_rules =
      with_part (not (e.rich_rules == 0)) (decimal e.rich_rules ++ lit " rich rule(s)")
        with_protocols in
    let with_target = with_part e.accept_target (lit "an ACCEPT zone target") with_rules in
    with_part e.forwarding (lit "intra-zone forwarding") with_target ++ lit "."

unfoldable pub inbound_reviews : ActiveExposure → List DashboardFinding
unfolding inbound_summary separator
inbound_reviews e =
    if not (e.ports == 0) || not (e.protocols == 0) || not (e.rich_rules == 0) || e.accept_target
    then review_item (lit "firewall.active-inbound-policy") (inbound_summary e) exposure
        MenuDestination.firewall high
      ∷ []
    else []

unfoldable pub forwarding_reviews : ActiveExposure → List DashboardFinding
forwarding_reviews e =
    if e.forwarding
    then review_item (lit "firewall.intra-zone-forwarding")
        (lit "Review intra-zone forwarding; it is enabled on an applicable zone.") exposure
        MenuDestination.firewall high
      ∷ []
    else []

unfoldable pub masquerading_reviews : ActiveExposure → List DashboardFinding
masquerading_reviews e =
    if e.masquerading
    then review_item (lit "firewall.masquerading")
        (lit "Review masquerading; it is enabled on an applicable zone.") exposure
        MenuDestination.firewall high
      ∷ []
    else []

unfoldable pub policy_reviews : FirewallState → List DashboardFinding
unfolding inbound_reviews forwarding_reviews masquerading_reviews active_exposure
    applicable_zone_details_available
policy_reviews state =
    let e = active_exposure state in
    if applicable_zone_details_available state
    then inbound_reviews e ++ forwarding_reviews e ++ masquerading_reviews e
    else []

unfoldable pub listener_reviews : FirewallState → List DashboardFinding
unfolding summarize_listener_exposure
listener_reviews state =
    let listeners = summarize_listener_exposure state.sockets in
    if state.sockets.available && not (listeners.logical_network_services == 0)
    then review_item (lit "listeners.network-reachable")
        (lit "Review "
          ++ decimal listeners.logical_network_services
          ++ lit " network-reachable TCP/UDP listener(s).")
        listener MenuDestination.firewall medium
      ∷ []
    else []

unfoldable pub review_items : FirewallState → List DashboardFinding
unfolding policy_reviews listener_reviews
review_items state = policy_reviews state ++ listener_reviews state

unfoldable pub policy_gaps : FirewallState → List DashboardFinding
unfolding applicable_zone_details_available
policy_gaps state =
    if applicable_zone_details_available state
    then []
    else gap (lit "firewall.applicable-policy")
        (lit "Applicable firewall policy detail is unavailable.") MenuDestination.firewall
      ∷ []

unfoldable pub coverage_gaps : FirewallState → List DashboardFinding
unfolding evidence_components component_gaps policy_gaps
coverage_gaps state = component_gaps (evidence_components state) ++ policy_gaps state
