-- ===== src/Threat/Zones.antt =====
-- The helpers of src/security/threat_assessment.cpp that read the zones.
use fedora_firewall_control.Common.{
  ℕ, ◌+◌, ◌-◌, Bool, true, false, not, ◌&&◌, ◌||◌, none, some, List, [], ◌∷◌, ◌++◌, ltb, ◌==◌,
  if◌then◌else◌, length, is_empty, any,
}
use fedora_firewall_control.Text.{Text, lit}
use fedora_firewall_control.Dict.{lookup}
use fedora_firewall_control.Firewall.{FirewallState, ZoneState, observation_available}
use fedora_firewall_control.Firewall.ZonePolicy.{zone_policies_equal}
use fedora_firewall_control.Firewall.Applicable.{
  is_zone_applicable, active_zone_member_count, applicable_zone_details_available,
}
use fedora_firewall_control.Ports.{ServiceDatabase, PortIntel}
use fedora_firewall_control.Ports.Specs.{identify_port_spec}

-- The zone is missing on the permanent side, or its policy is not equal there.
unfoldable pub lacks_equal_policy : List (Text × ZoneState) → Text × ZoneState → Bool
unfolding lookup zone_policies_equal
lacks_equal_policy permanent zone = elim (lookup zone.0 permanent) [
  | none ↦ true
  | some config ↦ not (zone_policies_equal zone.1 config)
]

unfoldable pub runtime_differs_from_permanent : FirewallState → Bool
unfolding lacks_equal_policy
runtime_differs_from_permanent state =
    if not (observation_available state.runtime_zones_status)
      || not (observation_available state.permanent_zones_status)
      || not (length state.runtime_zones == length state.permanent_zones)
    then true
    else any (lacks_equal_policy state.permanent_zones) state.runtime_zones

-- The last port is at least 1024 above the first.
unfoldable pub is_broad : PortIntel → Bool
is_broad intel = elim intel.port [
  | none ↦ false
  | some first ↦ elim intel.range_end [ none ↦ false | some last ↦ not (ltb (last - first) 1024) ]
]

broad_ports : ServiceDatabase → Text → List Text → List Text
broad_ports service_database zone_name [] = []
broad_ports service_database zone_name (port_spec ∷ rest) =
    let later = broad_ports service_database zone_name rest in
    if is_broad (identify_port_spec service_database port_spec)
    then (zone_name ++ lit ": " ++ port_spec) ∷ later
    else later

broad_zones : ServiceDatabase → FirewallState → List (Text × ZoneState) → List Text
broad_zones service_database state [] = []
broad_zones service_database state ((zone_name, zone) ∷ rest) =
    let later = broad_zones service_database state rest in
    if is_zone_applicable state zone_name
    then broad_ports service_database zone_name zone.ports ++ later
    else later

unfoldable pub broad_active_port_ranges : ServiceDatabase → FirewallState → List Text
unfolding broad_zones broad_ports is_broad identify_port_spec is_zone_applicable
broad_active_port_ranges service_database state =
    broad_zones service_database state state.runtime_zones

unfoldable pub active_zone_forwarding_enabled : FirewallState → Bool
unfolding is_zone_applicable
active_zone_forwarding_enabled state =
    any (λ z. is_zone_applicable state z.0 && z.1.forward) state.runtime_zones

unfoldable pub active_zone_forwarding_has_path : FirewallState → Bool
unfolding is_zone_applicable active_zone_member_count
active_zone_forwarding_has_path state =
    any
      (λ z.
        is_zone_applicable state z.0 && z.1.forward && ltb 1 (active_zone_member_count state z.0))
      state.runtime_zones

joined_onto : Text → List Text → Text
joined_onto result [] = result
joined_onto result (item ∷ rest) =
    joined_onto (result ++ (if is_empty result then [] else lit ", ") ++ item) rest

unfoldable pub joined : List Text → Text
unfolding joined_onto
joined items = joined_onto [] items

zone_rules : Text → ZoneState → List Text
zone_rules zone_name zone =
    (if is_empty zone.protocols
      then []
      else (zone_name ++ lit " protocol=" ++ joined zone.protocols) ∷ [])
    ++ (if is_empty zone.source_ports
        then []
        else (zone_name ++ lit " source-port=" ++ joined zone.source_ports) ∷ [])

zones_rules : FirewallState → List (Text × ZoneState) → List Text
zones_rules state [] = []
zones_rules state ((zone_name, zone) ∷ rest) =
    let later = zones_rules state rest in
    if is_zone_applicable state zone_name then zone_rules zone_name zone ++ later else later

unfoldable pub active_protocol_or_source_port_rules : FirewallState → List Text
unfolding zones_rules zone_rules joined is_zone_applicable applicable_zone_details_available
active_protocol_or_source_port_rules state =
    if applicable_zone_details_available state then zones_rules state state.runtime_zones else []

rich_rules_from : FirewallState → ℕ → List (Text × ZoneState) → ℕ
rich_rules_from state count [] = count
rich_rules_from state count ((zone_name, zone) ∷ rest) =
    rich_rules_from state
      (if is_zone_applicable state zone_name then count + length zone.rich_rules else count) rest

unfoldable pub applicable_rich_rule_count : FirewallState → ℕ
unfolding rich_rules_from is_zone_applicable applicable_zone_details_available
applicable_rich_rule_count state =
    if applicable_zone_details_available state
    then rich_rules_from state 0 state.runtime_zones
    else 0
