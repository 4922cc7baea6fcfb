-- ===== src/Firewall/ZonePolicy.antt =====
-- `zone_configurations_equal` and `zone_policies_equal` of src/firewall/firewall_state.cpp.
pub mod Equality
use fedora_firewall_control.Common.{Bool, true, false, not, ◌&&◌, List}
use fedora_firewall_control.Text.{Text, text_eq}
use fedora_firewall_control.Text.Order.{sort, texts_eq}
use fedora_firewall_control.Firewall.{ZoneState}

unfoldable pub unordered_values_equal : List Text → List Text → Bool
unfolding sort texts_eq
unordered_values_equal left right = texts_eq (sort left) (sort right)

abbrev bool_eq : Bool → Bool → Bool
bool_eq true b = b
bool_eq false b = not b

unfoldable pub zone_policy_values_equal : ZoneState → ZoneState → Bool
unfolding unordered_values_equal text_eq
zone_policy_values_equal left right =
    text_eq left.target right.target
    && unordered_values_equal left.sources right.sources
    && unordered_values_equal left.services right.services
    && unordered_values_equal left.ports right.ports
    && unordered_values_equal left.protocols right.protocols
    && unordered_values_equal left.source_ports right.source_ports
    && texts_eq left.rich_rules right.rich_rules
    && unordered_values_equal left.forward_ports right.forward_ports
    && bool_eq left.masquerade right.masquerade
    && bool_eq left.forward right.forward
    && bool_eq left.details_valid right.details_valid

unfoldable pub zone_configurations_equal : ZoneState → ZoneState → Bool
unfolding unordered_values_equal zone_policy_values_equal
zone_configurations_equal left right =
    unordered_values_equal left.interfaces right.interfaces && zone_policy_values_equal left right

unfoldable pub zone_policies_equal : ZoneState → ZoneState → Bool
unfolding zone_policy_values_equal
zone_policies_equal left right = zone_policy_values_equal left right
