-- ===== src/CommandLine.antt =====
-- src/app/command_line.cpp: the typed command, and the exit codes of src/app/command_executor.cpp.
pub mod Names
pub mod Exit
use fedora_firewall_control.Common.{
  Bool, true, false, ◌&&◌, Option, none, some, List, [], ◌∷◌, if◌then◌else◌,
}
use fedora_firewall_control.Text.{Text, lit, text_eq}
use fedora_firewall_control.Mode.{OperatingMode, parse_operating_mode}

pub data CommandAction : Type 0 where
  interactive help status snapshot_json snapshot_json_v2 readiness listeners : CommandAction
  threat_assessment network_diagnostics security_advisories network_metadata : CommandAction
  network_history log_analysis configure_ipify_key mode invalid : CommandAction

pub record CommandLine : Type 0 where
  pub action : CommandAction
  pub enrich_metadata : Bool
  pub extended_diagnostics : Bool
  pub advanced_diagnostics : Bool
  pub mode_to_set : Option OperatingMode

unfoldable pub make_command : CommandAction → CommandLine
make_command action = record {
  action = action;
  enrich_metadata = false;
  extended_diagnostics = false;
  advanced_diagnostics = false;
  mode_to_set = none;
}

-- The option of one argument.
unfoldable pub option_action : Text → CommandAction
unfolding text_eq
option_action argument =
    if text_eq argument (lit "--help")
    then help
    else if text_eq argument (lit "--status")
    then status
    else if text_eq argument (lit "--snapshot-json")
    then snapshot_json
    else if text_eq argument (lit "--snapshot-json-v2")
    then snapshot_json_v2
    else if text_eq argument (lit "--readiness")
    then readiness
    else if text_eq argument (lit "--listeners")
    then listeners
    else if text_eq argument (lit "--threat-assessment")
    then threat_assessment
    else if text_eq argument (lit "--network-diagnostics")
    then network_diagnostics
    else if text_eq argument (lit "--security-advisories")
    then security_advisories
    else if text_eq argument (lit "--network-metadata")
    then network_metadata
    else if text_eq argument (lit "--network-history")
    then network_history
    else if text_eq argument (lit "--log-analysis")
    then log_analysis
    else if text_eq argument (lit "--configure-ipify-key")
    then configure_ipify_key
    else if text_eq argument (lit "--mode")
    then mode
    else invalid

set_mode : Option OperatingMode → CommandLine
set_mode none = make_command invalid
set_mode (some m) = record (make_command mode) { mode_to_set = some m }

parse_pair : Text → Text → CommandLine
parse_pair first second =
    if text_eq first (lit "--network-metadata") && text_eq second (lit "--enrich")
    then record (make_command network_metadata) { enrich_metadata = true }
    else if text_eq first (lit "--network-diagnostics") && text_eq second (lit "--extended")
    then record (make_command network_diagnostics) { extended_diagnostics = true }
    else if text_eq first (lit "--network-diagnostics") && text_eq second (lit "--advanced")
    then record (make_command network_diagnostics) {
      extended_diagnostics = true;
      advanced_diagnostics = true;
    }
    else if text_eq first (lit "--mode")
    then set_mode (parse_operating_mode second)
    else make_command invalid

unfoldable pub parse_command_line : List Text → CommandLine
unfolding option_action parse_pair set_mode make_command parse_operating_mode
parse_command_line [] = make_command interactive
parse_command_line (argument ∷ []) = make_command (option_action argument)
parse_command_line (first ∷ second ∷ []) = parse_pair first second
parse_command_line _ = make_command invalid

unfoldable pub command_action_name : CommandAction → Text
command_action_name interactive = lit "interactive"
command_action_name help = lit "help"
command_action_name status = lit "status"
command_action_name snapshot_json = lit "snapshot-json"
command_action_name snapshot_json_v2 = lit "snapshot-json-v2"
command_action_name readiness = lit "readiness"
command_action_name listeners = lit "listeners"
command_action_name threat_assessment = lit "threat-assessment"
command_action_name network_diagnostics = lit "network-diagnostics"
command_action_name security_advisories = lit "security-advisories"
command_action_name network_metadata = lit "network-metadata"
command_action_name network_history = lit "network-history"
command_action_name log_analysis = lit "log-analysis"
command_action_name configure_ipify_key = lit "configure-ipify-key"
command_action_name mode = lit "mode"
command_action_name invalid = lit "invalid"
