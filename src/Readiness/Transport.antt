-- ===== src/Readiness/Transport.antt =====
-- The checks of NetworkManager, the transports, the tunnels and the active-zone bindings.
use fedora_firewall_control.Common.{Bool, not, ◌&&◌, ◌||◌, if◌then◌else◌, is_empty, any}
use fedora_firewall_control.Text.{lit, text_eq}
use fedora_firewall_control.Firewall.{FirewallState, observation_available}
use fedora_firewall_control.Firewall.Applicable.{
  is_connected, is_connected_transport_device, is_bound,
}
use fedora_firewall_control.Readiness.{check, unavailable_check, ReadinessCheck, pass, warn, info}

unfoldable pub network_manager_check : FirewallState → ReadinessCheck
network_manager_check state =
    check (lit "NetworkManager status") (if state.network_manager.available then pass else warn)
      (if state.network_manager.available then lit "available" else lit "nmcli status unavailable")

unfoldable pub connected_wifi : FirewallState → Bool
unfolding is_connected text_eq
connected_wifi state =
    any (λ d. text_eq d.type (lit "wifi") && is_connected d) state.network_manager.devices

unfoldable pub transport_check : FirewallState → ReadinessCheck
unfolding connected_wifi
transport_check state =
    check (lit "untrusted-transport review") (if connected_wifi state then warn else info) (
      if connected_wifi state
      then lit "Wi-Fi is connected; validate its zone and exposure"
      else lit "transport alone cannot identify a venue or attacker")

unfoldable pub tunnel_check : FirewallState → ReadinessCheck
tunnel_check state =
    let unknown = not state.vpn.interface_scan_available in
    let quiet = is_empty state.vpn.active_tunnel_interfaces in
    check (lit "VPN tunnel awareness") (if unknown then warn else if quiet then info else pass) (
      if unknown
      then lit "local tunnel scan unavailable"
      else if quiet
      then lit "no detected tunnel-like interface"
      else lit "detected tunnel-like interface; route use is not verified")

unfoldable pub assignments_check : FirewallState → ReadinessCheck
assignments_check state =
    let label = lit "active interface assignments" in
    if not (observation_available state.active_zones_status)
    then unavailable_check label (lit "active-zone query unavailable")
    else if is_empty state.active_zone_interfaces && is_empty state.active_zone_sources
    then check label warn (lit "no active zone assignments reported")
    else if is_empty state.active_zone_interfaces
    then check label info (lit "only source-based active zones reported")
    else check label pass (lit "inspect NetworkManager bindings separately")

unfoldable pub unclassified_connected_device : FirewallState → Bool
unfolding is_connected_transport_device is_bound
unclassified_connected_device state =
    any
      (λ d.
        is_connected_transport_device d
        && not (is_bound state.active_zone_interfaces d.interface_name))
      state.network_manager.devices

unfoldable pub devices_check : FirewallState → ReadinessCheck
unfolding unclassified_connected_device
devices_check state =
    let label = lit "connected devices assigned to active zones" in
    if not state.network_manager.available || not (observation_available state.active_zones_status)
    then unavailable_check label (lit "NetworkManager or active-zone evidence unavailable")
    else check label (if unclassified_connected_device state then warn else pass) (
        if unclassified_connected_device state
        then lit "a connected NetworkManager device has no active-zone binding"
        else lit "all observed connected devices are classified")

unfoldable pub sources_check : FirewallState → ReadinessCheck
sources_check state =
    let label = lit "active source bindings" in
    if not (observation_available state.active_zones_status)
    then unavailable_check label (lit "active-zone query unavailable")
    else check label (if is_empty state.active_zone_sources then pass else warn)
        (if is_empty state.active_zone_sources then lit "none" else lit "review source-based trust")
