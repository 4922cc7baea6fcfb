-- ===== src/Network/Diagnostics.antt =====
-- src/network/network_diagnostics.cpp: the active probes, over the runner.
pub mod Tools
use fedora_firewall_control.Command.{CommandResult, CommandRunner, is_code, success}
use fedora_firewall_control.Network.Address.{AddressParser}
use fedora_firewall_control.Network.Hops.{TracerouteHop, parse_traceroute_hops}
use fedora_firewall_control.Network.Mtr.{Floats, PathStabilityHop, parse_mtr_hops}
use fedora_firewall_control.Common.{
  Bool, false, not, ◌&&◌, ◌||◌, Option, none, some, List, [], ◌∷◌, ◌++◌, map, if◌then◌else◌,
  is_empty, any,
}
use fedora_firewall_control.Text.{Text, lit, text_eq}
use fedora_firewall_control.Text.Search.{contains_text}

unfoldable pub output_or_error : CommandResult → Text
output_or_error result =
    if not (is_empty result.stdout_text) && not (is_empty result.stderr_text)
    then result.stdout_text ++ (b'\n' ∷ result.stderr_text)
    else if is_empty result.stdout_text
    then result.stderr_text
    else result.stdout_text

pub record ReachabilityProbe : Type 0 where
  pub destination : Text
  pub reachable : Bool
  pub command_available : Bool
  pub output : Text

pub record TracerouteResult : Type 0 where
  pub destination : Text
  pub command_available : Bool
  pub completed : Bool
  pub output : Text
  pub hops : List TracerouteHop

pub record PathStabilityReport (D : Type 0) : Type 0 where
  pub command_available : Bool
  pub destination_observed : Bool
  pub destination : Text
  pub output : Text
  pub hops : List (PathStabilityHop D)

pub record ResolverProbe : Type 0 where
  pub resolver : Text
  pub command_available : Bool
  pub answered : Bool
  pub output : Text

pub record NetworkDiagnostics (D : Type 0) : Type 0 where
  pub probes : List ReachabilityProbe
  pub traceroutes : List TracerouteResult
  pub path_stability : Option (PathStabilityReport D)
  pub resolver_probes : List ResolverProbe

abbrev report_unavailable : {D : Type 0} → Option (PathStabilityReport D) → Bool
report_unavailable none = false
report_unavailable (some report) = not report.command_available

unfoldable pub has_unavailable_tools : {D : Type 0} → NetworkDiagnostics D → Bool
has_unavailable_tools d =
    any (λ (p : ReachabilityProbe). not p.command_available) d.probes
    || any (λ (t : TracerouteResult). not t.command_available) d.traceroutes
    || report_unavailable d.path_stability
    || any (λ (r : ResolverProbe). not r.command_available) d.resolver_probes

-- The exit code 127 is the one of a command that could not be started.
abbrev pub is_missing : CommandResult → Bool
is_missing result = is_code 127 result.exit_code

unfoldable pub ping_command : Text → List Text
ping_command destination =
    lit "ping" ∷ lit "-n" ∷ lit "-c" ∷ lit "2" ∷ lit "-W" ∷ lit "2" ∷ destination ∷ []

unfoldable pub traceroute_command : Text → List Text
traceroute_command destination =
    lit "traceroute"
    ∷ lit "-n"
    ∷ lit "-m"
    ∷ lit "8"
    ∷ lit "-q"
    ∷ lit "1"
    ∷ lit "-w"
    ∷ lit "2"
    ∷ destination
    ∷ []

unfoldable pub mtr_command : Text → List Text
mtr_command target = lit "mtr" ∷ lit "-n" ∷ lit "-r" ∷ lit "-c" ∷ lit "5" ∷ lit "-w" ∷ target ∷ []

unfoldable pub dig_command : Text → List Text
dig_command resolver =
    lit "dig"
    ∷ (b'@' ∷ resolver)
    ∷ lit "example.com"
    ∷ lit "A"
    ∷ lit "+time=2"
    ∷ lit "+tries=1"
    ∷ lit "+stats"
    ∷ lit "+noall"
    ∷ lit "+answer"
    ∷ lit "+comments"
    ∷ []

unfoldable pub probe_targets : List Text
probe_targets = lit "1.1.1.1" ∷ lit "8.8.8.8" ∷ []

unfoldable pub route_targets : Bool → Bool → List Text
route_targets extended advanced =
    lit "1.1.1.1"
    ∷ (if extended || advanced
        then lit "8.8.8.8" ∷ lit "9.9.9.9" ∷ lit "208.67.222.222" ∷ []
        else [])

unfoldable pub resolvers : List Text
resolvers = lit "1.1.1.1" ∷ lit "8.8.8.8" ∷ lit "9.9.9.9" ∷ []

module _ {D : Type 0} (f : Floats D) (net : AddressParser) (runner : CommandRunner) where
  unfoldable pub probe : Text → ReachabilityProbe
  unfolding output_or_error ping_command
  probe destination =
      let result = runner (ping_command destination) in
      record {
        destination = destination;
        reachable = success result;
        command_available = not (is_missing result);
        output = output_or_error result;
      }

  unfoldable pub trace : Text → TracerouteResult
  unfolding output_or_error traceroute_command parse_traceroute_hops text_eq
  trace destination =
      let route = runner (traceroute_command destination) in
      let hops = parse_traceroute_hops net (output_or_error route) in
      record {
        destination = destination;
        command_available = not (is_missing route);
        completed = any (λ (hop : TracerouteHop). text_eq hop.address destination) hops;
        output = output_or_error route;
        hops = hops;
      }

  unfoldable pub stability : Text → PathStabilityReport D
  unfolding output_or_error mtr_command parse_mtr_hops text_eq
  stability target =
      let mtr = runner (mtr_command target) in
      let hops = parse_mtr_hops f net (output_or_error mtr) in
      record {
        command_available = not (is_missing mtr);
        destination_observed = any (λ (hop : PathStabilityHop D). text_eq hop.address target) hops;
        destination = target;
        output = output_or_error mtr;
        hops = hops;
      }

  unfoldable pub resolve : Text → ResolverProbe
  unfolding output_or_error dig_command contains_text
  resolve resolver =
      let dns = runner (dig_command resolver) in
      record {
        resolver = resolver;
        command_available = not (is_missing dns);
        answered = success dns && contains_text (output_or_error dns) (lit "status: NOERROR");
        output = output_or_error dns;
      }

  unfoldable pub inspect : Bool → Bool → NetworkDiagnostics D
  unfolding probe trace stability resolve probe_targets route_targets resolvers
  inspect extended advanced = record {
    probes = map probe probe_targets;
    traceroutes = map trace (route_targets extended advanced);
    path_stability = if advanced then some (stability (lit "1.1.1.1")) else none;
    resolver_probes = if advanced then map resolve resolvers else [];
  }
