-- ===== src/Readiness/Policy.antt =====
-- The checks of the applicable zones' policy, and the whole assessment.
use fedora_firewall_control.Common.{
  ℕ, ◌+◌, Bool, not, ◌&&◌, ◌||◌, List, [], ◌∷◌, ◌++◌, ltb, ◌==◌, if◌then◌else◌, length, is_empty,
  any,
}
use fedora_firewall_control.Text.{Text, lit, text_eq}
use fedora_firewall_control.Text.Decimal.{to_string as decimal}
use fedora_firewall_control.Mode.{is_hostile}
use fedora_firewall_control.Firewall.{FirewallState, ZoneState, observation_available}
use fedora_firewall_control.Firewall.Applicable.{
  is_zone_applicable, active_zone_member_count, applicable_zone_details_available,
}
use fedora_firewall_control.Readiness.{
  check, unavailable_check, CheckLevel, ReadinessCheck, pass, warn, fail, info,
}
use fedora_firewall_control.Readiness.Drift.{runtime_matches_permanent}

-- A flag of the loop over the runtime zones: some applicable zone has the property.
unfoldable pub some_zone : FirewallState → (Text → ZoneState → Bool) → Bool
unfolding is_zone_applicable
some_zone state p = any (λ z. is_zone_applicable state z.0 && p z.0 z.1) state.runtime_zones

abbrev pub has_exposure : Text → ZoneState → Bool
has_exposure zone config =
    not (is_empty config.services)
    || not (is_empty config.ports)
    || not (is_empty config.protocols)
    || not (is_empty config.source_ports)
    || not (is_empty config.rich_rules)

abbrev pub forwards : Text → ZoneState → Bool
forwards zone config = config.forward

abbrev pub masquerades : Text → ZoneState → Bool
masquerades zone config = config.masquerade

unfoldable pub accepts : Text → ZoneState → Bool
unfolding text_eq
accepts zone config = text_eq config.target (lit "ACCEPT")

abbrev pub forwards_ports : Text → ZoneState → Bool
forwards_ports zone config = not (is_empty config.forward_ports)

unfoldable pub has_forwarding_path : FirewallState → Text → ZoneState → Bool
unfolding active_zone_member_count
has_forwarding_path state zone config =
    config.forward && ltb 1 (active_zone_member_count state zone)

unfoldable pub unavailable_policy_detail : Text
unavailable_policy_detail =
    lit "applicable-zone or runtime policy collection unavailable or incomplete"

-- `!active_details_available ? unavailable_check(label, …) : ReadinessCheck{label, …}`
abbrev policy_check : FirewallState → Text → CheckLevel → Text → ReadinessCheck
policy_check state label level detail =
    if applicable_zone_details_available state
    then check label level detail
    else unavailable_check label unavailable_policy_detail

abbrev by_mode : FirewallState → CheckLevel
by_mode state = if is_hostile state.operating_mode then fail else warn

unfoldable pub inbound_check : FirewallState → ReadinessCheck
unfolding some_zone unavailable_policy_detail applicable_zone_details_available
inbound_check state =
    let exposure = some_zone state has_exposure in
    policy_check state (lit "inbound services, ports, and protocols")
      (if exposure then by_mode state else pass)
      (if exposure then lit "review configured exposure or rich rules" else lit "none")

add_rich_rules : FirewallState → ℕ → List (Text × ZoneState) → ℕ
add_rich_rules state count [] = count
add_rich_rules state count ((zone, config) ∷ rest) =
    add_rich_rules state
      (if is_zone_applicable state zone then count + length config.rich_rules else count) rest

unfoldable pub applicable_rich_rules : FirewallState → ℕ
unfolding add_rich_rules is_zone_applicable
applicable_rich_rules state = add_rich_rules state 0 state.runtime_zones

unfoldable pub rich_rules_check : FirewallState → ReadinessCheck
unfolding applicable_rich_rules unavailable_policy_detail applicable_zone_details_available
rich_rules_check state =
    let quiet = applicable_rich_rules state == 0 in
    policy_check state (lit "active rich rules") (if quiet then pass else by_mode state) (
      if quiet
      then lit "none"
      else decimal (applicable_rich_rules state) ++ lit " rule(s); semantics are not fully parsed")

unfoldable pub target_check : FirewallState → ReadinessCheck
unfolding some_zone accepts unavailable_policy_detail applicable_zone_details_available
target_check state =
    let permissive_target = some_zone state accepts in
    policy_check state (lit "active zone target") (if permissive_target then fail else pass) (
      if permissive_target
      then lit "ACCEPT target trusts unmatched traffic"
      else lit "no active ACCEPT target")

unfoldable pub forward_ports_check : FirewallState → ReadinessCheck
unfolding some_zone unavailable_policy_detail applicable_zone_details_available
forward_ports_check state =
    let forward_ports = some_zone state forwards_ports in
    policy_check state (lit "active forward ports") (if forward_ports then warn else pass)
      (if forward_ports then lit "review forwarded traffic" else lit "none")

unfoldable pub forwarding_check : FirewallState → ReadinessCheck
unfolding some_zone has_forwarding_path unavailable_policy_detail applicable_zone_details_available
forwarding_check state =
    let forwarding = some_zone state forwards in
    let forwarding_path = some_zone state (has_forwarding_path state) in
    policy_check state (lit "intra-zone forwarding")
      (if not forwarding then pass else if forwarding_path then by_mode state else info)
      (if not forwarding
        then lit "disabled"
        else if forwarding_path
        then lit "active zone has multiple members that can forward between each other"
        else lit "configured, but no active zone has multiple interface/source members")

unfoldable pub masquerade_check : FirewallState → ReadinessCheck
unfolding some_zone unavailable_policy_detail applicable_zone_details_available
masquerade_check state =
    policy_check state (lit "masquerading disabled")
      (if some_zone state masquerades then by_mode state else pass) []

unfoldable pub policies_check : FirewallState → ReadinessCheck
policies_check state =
    let label = lit "active firewalld policies" in
    if not (observation_available state.active_policies_status)
    then unavailable_check label (lit "policy inventory unavailable")
    else if is_empty state.active_policies
    then check label pass (lit "none")
    else check label warn (
        decimal (length state.active_policies)
        ++ lit " active policy name(s); policy details are not yet assessed")

unfoldable pub coverage_check : FirewallState → ReadinessCheck
unfolding unavailable_policy_detail applicable_zone_details_available
coverage_check state = policy_check state (lit "zone policy coverage") info (
    lit
      "rich-rule semantics, ICMP blocks, helpers, priorities, and direct rules are not yet assessed")

unfoldable pub aligned_check : FirewallState → ReadinessCheck
unfolding runtime_matches_permanent
aligned_check state =
    let label = lit "permanent/runtime state aligned" in
    if not (observation_available state.runtime_zones_status)
      || not (observation_available state.permanent_zones_status)
    then unavailable_check label (lit "runtime or permanent policy collection unavailable")
    else check label (if runtime_matches_permanent state then pass else warn)
        (if runtime_matches_permanent state then [] else lit "runtime differs from permanent")

unfoldable pub diagnostics_check : FirewallState → List ReadinessCheck
diagnostics_check state =
    if is_empty state.errors
    then []
    else check (lit "firewalld collection diagnostics") warn
        (decimal (length state.errors) ++ lit " collection issue(s) reported")
      ∷ []
