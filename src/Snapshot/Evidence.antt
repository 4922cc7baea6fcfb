-- ===== src/Snapshot/Evidence.antt =====
-- The evidence components of `make_dashboard_snapshot`, their gaps and the overall status.
pub mod Gaps
use fedora_firewall_control.Common.{
  Bool, true, false, not, ◌||◌, List, [], ◌∷◌, ◌++◌, if◌then◌else◌, any,
}
use fedora_firewall_control.Text.{Text, lit}
use fedora_firewall_control.Text.Search.{starts_with}
use fedora_firewall_control.Firewall.{FirewallState, ObservationStatus, observation_available}
use fedora_firewall_control.Snapshot.{
  MenuDestination, DashboardFinding, ComponentEvidence, medium, evidence_gap, network, evidence,
}

abbrev component : Text → ObservationStatus → Text → ComponentEvidence
component name status detail = record { component = name; status = status; detail = detail }

abbrev by_flag : Bool → ObservationStatus
by_flag true = ObservationStatus.available
by_flag false = ObservationStatus.unavailable

unfoldable pub evidence_components : FirewallState → List ComponentEvidence
evidence_components state =
    let signals = state.security_signals in
    component (lit "firewalld runtime policy") state.runtime_zones_status (
      if observation_available state.runtime_zones_status
      then lit "collected"
      else lit "unavailable")
    ∷ component (lit "firewalld permanent policy") state.permanent_zones_status (
        if observation_available state.permanent_zones_status
        then lit "collected"
        else lit "unavailable")
    ∷ component (lit "NetworkManager device inventory") (by_flag state.network_manager.available) (
        if state.network_manager.available
        then lit "collected"
        else state.network_manager.diagnostic)
    ∷ component (lit "NetworkManager profile and autoconnect inventory")
        ObservationStatus.unavailable (lit "not collected by this read-only snapshot")
    ∷ component (lit "TCP/UDP listener inventory") (by_flag state.sockets.available)
        (if state.sockets.available then lit "collected" else state.sockets.diagnostic)
    ∷ component (lit "kernel denied-packet journal") (by_flag signals.kernel_journal_available)
        (if signals.kernel_journal_available then lit "collected" else signals.diagnostic)
    ∷ component (lit "firewalld service journal") (by_flag signals.firewalld_journal_available)
        (if signals.firewalld_journal_available then lit "collected" else signals.diagnostic)
    ∷ component (lit "VPN route, DNS, and kill-switch verification") ObservationStatus.unavailable
        (lit "not implemented in this read-only snapshot")
    ∷ []

-- `add_gap`
abbrev pub gap : Text → Text → MenuDestination → DashboardFinding
gap id summary destination = record {
  severity = medium;
  category = evidence_gap;
  id = id;
  summary = summary;
  destination = destination;
}

component_destination : Text → MenuDestination
component_destination name =
    if starts_with name (lit "NetworkManager") || starts_with name (lit "VPN")
    then network
    else evidence

unfoldable pub component_gaps : List ComponentEvidence → List DashboardFinding
unfolding component_destination starts_with
component_gaps [] = []
component_gaps (c ∷ rest) =
    let later = component_gaps rest in
    if observation_available c.status
    then later
    else gap (lit "evidence." ++ c.component) (c.component ++ lit " unavailable: " ++ c.detail)
        (component_destination c.component)
      ∷ later

unfoldable pub overall_evidence : List ComponentEvidence → ObservationStatus
overall_evidence components =
    let any_partial = any (λ c. not (observation_available c.status)) components in
    let any_available = any (λ c. observation_available c.status) components in
    if not any_partial
    then ObservationStatus.available
    else if any_available
    then ObservationStatus.partial
    else ObservationStatus.unavailable
