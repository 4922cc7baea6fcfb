-- ===== src/Readiness/Drift.antt =====
-- `runtime_matches_permanent` of src/firewall/readiness.cpp.
use fedora_firewall_control.Common.{
  Bool, false, not, ◌||◌, none, some, List, ◌==◌, if◌then◌else◌, length, all,
}
use fedora_firewall_control.Text.{Text}
use fedora_firewall_control.Dict.{lookup}
use fedora_firewall_control.Firewall.{FirewallState, ZoneState, observation_available}
use fedora_firewall_control.Firewall.ZonePolicy.{zone_policies_equal}

-- The permanent map has the zone, with an equal policy.
unfoldable pub has_equal_policy : List (Text × ZoneState) → Text × ZoneState → Bool
unfolding lookup zone_policies_equal
has_equal_policy permanent zone = elim (lookup zone.0 permanent) [
  | none ↦ false
  | some config ↦ zone_policies_equal zone.1 config
]

unfoldable pub runtime_matches_permanent : FirewallState → Bool
unfolding has_equal_policy
runtime_matches_permanent state =
    if not (observation_available state.runtime_zones_status)
      || not (observation_available state.permanent_zones_status)
    then false
    else if not (length state.runtime_zones == length state.permanent_zones)
    then false
    else all (has_equal_policy state.permanent_zones) state.runtime_zones
