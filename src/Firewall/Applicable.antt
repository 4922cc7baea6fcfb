-- ===== src/Firewall/Applicable.antt =====
-- The applicable-zone resolver of src/firewall/firewall_state.cpp.
pub mod Membership
use fedora_firewall_control.Common.{
  ℕ, ◌+◌, Bool, false, not, ◌&&◌, ◌||◌, none, some, List, [], ◌∷◌, if◌then◌else◌, length, is_empty,
  any, all,
}
use fedora_firewall_control.Text.{Text, lit, text_eq}
use fedora_firewall_control.Text.Search.{starts_with}
use fedora_firewall_control.Text.Order.{member, set_insert}
use fedora_firewall_control.Dict.{lookup, has_key}
use fedora_firewall_control.Firewall.{FirewallState, NetworkDeviceState, observation_available}

unfoldable pub is_zone_active : FirewallState → Text → Bool
unfolding has_key
is_zone_active state zone =
    has_key zone state.active_zone_interfaces || has_key zone state.active_zone_sources

unfoldable pub is_connected : NetworkDeviceState → Bool
unfolding starts_with
is_connected device = starts_with device.state (lit "connected")

unfoldable pub is_connected_transport_device : NetworkDeviceState → Bool
unfolding is_connected text_eq
is_connected_transport_device device =
    if not (is_connected device)
    then false
    else not (text_eq device.type (lit "loopback"))
      && not (text_eq device.type (lit "wireguard"))
      && not (text_eq device.type (lit "tun"))
      && not (text_eq device.type (lit "vpn"))

-- Some active zone lists the interface.
unfoldable pub is_bound : List (Text × List Text) → Text → Bool
unfolding member
is_bound bindings name = any (λ b. member name b.1) bindings

unfoldable pub insert_keys {ℓ} : {V : Type ℓ} → List (Text × V) → List Text → List Text
unfolding set_insert
insert_keys [] zones = zones
insert_keys ((zone, v) ∷ rest) zones = insert_keys rest (set_insert zone zones)

unfoldable pub default_zone_applies : FirewallState → Bool
unfolding is_connected_transport_device is_bound
default_zone_applies state =
    not state.network_manager.available
    || any
        (λ d.
          is_connected_transport_device d
          && not (is_bound state.active_zone_interfaces d.interface_name))
        state.network_manager.devices

unfoldable pub applicable_zone_names : FirewallState → List Text
unfolding insert_keys default_zone_applies set_insert
applicable_zone_names state =
    let zones =
      insert_keys state.active_zone_sources (insert_keys state.active_zone_interfaces []) in
    if default_zone_applies state
      && observation_available state.default_zone_status
      && not (is_empty state.default_zone)
    then set_insert state.default_zone zones
    else zones

unfoldable pub is_zone_applicable : FirewallState → Text → Bool
unfolding applicable_zone_names member
is_zone_applicable state zone = member zone (applicable_zone_names state)

member_count : Text → List (Text × List Text) → ℕ
member_count name m = elim (lookup name m) [ none ↦ 0 | some members ↦ length members ]

unfoldable pub active_zone_member_count : FirewallState → Text → ℕ
unfolding member_count lookup
active_zone_member_count state zone =
    member_count zone state.active_zone_interfaces + member_count zone state.active_zone_sources

unfoldable pub applicable_zone_details_available : FirewallState → Bool
unfolding applicable_zone_names has_key
applicable_zone_details_available state =
    if not (observation_available state.active_zones_status)
      || not (observation_available state.runtime_zones_status)
      || not (observation_available state.default_zone_status)
    then false
    else all (λ zone. has_key zone state.runtime_zones) (applicable_zone_names state)
