-- ===== src/Network/Diagnostics/Tools.antt =====
-- Which commands the diagnostics of src/network/network_diagnostics.cpp run.
use fedora_firewall_control.Network.Diagnostics.{inspect}
use fedora_firewall_control.Command.{CommandRunner}
use fedora_firewall_control.Common.{
  ◌≡◌, Bool, true, false, List, [], ◌∷◌, ◌++◌, map, arith, if◌then◌else◌, any,
}
use fedora_firewall_control.Network.Address.{AddressParser}
use fedora_firewall_control.Network.Diagnostics.{
  has_unavailable_tools, is_missing, ping_command, traceroute_command, mtr_command, dig_command,
  probe_targets, route_targets, resolvers,
}
use fedora_firewall_control.Network.Mtr.{Floats}
use fedora_firewall_control.Text.{Text, lit}

-- The command lines of an inspection.
unfoldable pub commands : Bool → Bool → List (List Text)
commands extended advanced =
    map ping_command probe_targets
    ++ (map traceroute_command (route_targets extended advanced)
        ++ (if advanced then mtr_command (lit "1.1.1.1") ∷ map dig_command resolvers else []))

module _ {D : Type 0} (f : Floats D) (net : AddressParser) (runner : CommandRunner) where
  -- A tool counts as unavailable just if one of the commands of the inspection, which are the two
  -- pings, one traceroute or four, and in the advanced mode one mtr and three digs, exits with 127.
  pub has_unavailable_tools-inspect :
      (extended advanced : Bool)
      → has_unavailable_tools (inspect f net runner extended advanced)
        ≡ any (λ command. is_missing (runner command)) (commands extended advanced)
  unfolding has_unavailable_tools inspect commands probe_targets route_targets resolvers
  has_unavailable_tools-inspect false false = ground arith
  has_unavailable_tools-inspect false true = ground arith
  has_unavailable_tools-inspect true false = ground arith
  has_unavailable_tools-inspect true true = ground arith
