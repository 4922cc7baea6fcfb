-- ===== src/Network/Devices.antt =====
-- src/network/network_manager.cpp and src/network/vpn.cpp: devices and tunnel-like interfaces.
use fedora_firewall_control.Common.{
  ◌+◌, Bool, true, ◌||◌, Option, none, some, List, [], ◌∷◌, ◌==◌, if◌then◌else◌, is_empty, drop,
}
use fedora_firewall_control.Text.{Text, lit, text_eq, drop_while, lowercase_copy}
use fedora_firewall_control.Text.Search.{starts_with, find_char, substr, take_until, drop_until}
use fedora_firewall_control.Text.Words.{lines}
use fedora_firewall_control.Command.{success, CommandRunner, error_or}
use fedora_firewall_control.Firewall.{
  NetworkDeviceState, NetworkManagerState, VpnState, no_network_manager,
}

-- The reads `getline(fields, name, ':')`, `getline(fields, type, ':')` and `getline(fields, state)`:
-- the third takes the rest of the line, and fails at its end.
device_of : Text → Text → Text → Option NetworkDeviceState
device_of name type [] = none
device_of name type (c ∷ cs) =
    if is_empty name
    then none
    else some (record { interface_name = name; type = type; state = c ∷ cs })

unfoldable pub parse_device : Text → Option NetworkDeviceState
unfolding device_of take_until drop_until
parse_device line =
    let name = take_until (λ c. c == b':') line in
    let behind_name = drop 1 (drop_until (λ c. c == b':') line) in
    let type = take_until (λ c. c == b':') behind_name in
    device_of name type (drop 1 (drop_until (λ c. c == b':') behind_name))

devices_of : List Text → List NetworkDeviceState
devices_of [] = []
devices_of (line ∷ rest) = elim (parse_device line) [
  | none ↦ devices_of rest
  | some device ↦ device ∷ devices_of rest
]

unfoldable pub parse_network_manager_devices : Text → List NetworkDeviceState
unfolding devices_of parse_device lines
parse_network_manager_devices text = devices_of (lines text)

unfoldable pub inspect_network_manager : CommandRunner → NetworkManagerState
unfolding parse_network_manager_devices
inspect_network_manager run =
    let result = run (
      lit "nmcli"
      ∷ lit "--terse"
      ∷ lit "--fields"
      ∷ lit "DEVICE,TYPE,STATE"
      ∷ lit "device"
      ∷ lit "status"
      ∷ []) in
    if success result
    then record {
      available = true;
      devices = parse_network_manager_devices result.stdout_text;
      diagnostic = [];
    }
    else record no_network_manager {
      diagnostic = error_or result (lit "nmcli status command failed");
    }

unfoldable pub looks_like_tunnel : Text → Bool
unfolding lowercase_copy text_eq starts_with
looks_like_tunnel name =
    let lower = lowercase_copy name in
    text_eq lower (lit "nordlynx")
    || starts_with lower (lit "wg")
    || starts_with lower (lit "tun")
    || starts_with lower (lit "tap")
    || starts_with lower (lit "tailscale")
    || starts_with lower (lit "zt")

-- `name.erase(0, name.find_first_not_of(" \t"))`, which erases a name of blanks whole, and the
-- part from `@` on.
unfoldable pub link_name : Text → Text
unfolding drop_while take_until
link_name raw = take_until (λ c. c == b'@') (drop_while (λ c. c == b' ' || c == b'\t') raw)

-- The text between the first two colons.
unfoldable pub between_colons : Text → Option Text
unfolding find_char
between_colons line = elim (find_char line b':') [
  | none ↦ none
  | some first ↦ elim (find_char (drop (first + 1) line) b':') [
    | none ↦ none
    | some width ↦ some (substr line (first + 1) width)
  ]
]

tunnels_of : List Text → List Text
tunnels_of [] = []
tunnels_of (line ∷ rest) = elim (between_colons line) [
  | none ↦ tunnels_of rest
  | some raw ↦
      if looks_like_tunnel (link_name raw) then link_name raw ∷ tunnels_of rest else tunnels_of rest
]

unfoldable pub parse_vpn_tunnel_interfaces : Text → List Text
unfolding tunnels_of between_colons link_name looks_like_tunnel substr lines
parse_vpn_tunnel_interfaces ip_link_output = tunnels_of (lines ip_link_output)

unfoldable pub inspect_vpn : CommandRunner → VpnState
unfolding parse_vpn_tunnel_interfaces
inspect_vpn run =
    let links = run (lit "ip" ∷ lit "-o" ∷ lit "link" ∷ lit "show" ∷ []) in
    record {
      nordvpn_installed = success (run (lit "rpm" ∷ lit "-q" ∷ lit "nordvpn" ∷ []));
      interface_scan_available = success links;
      active_tunnel_interfaces =
          if success links then parse_vpn_tunnel_interfaces links.stdout_text else [];
      diagnostic =
          if success links then [] else error_or links (lit "could not inspect local interfaces");
    }
