-- ===== src/CommandLine/Exit.antt =====
-- The exit codes of `CommandExecutor::execute` in src/app/command_executor.cpp. What the
-- collectors and the stores answer is the record `Answers`; what is printed is not modelled.
pub mod Codes
use fedora_firewall_control.Common.{ℕ, Bool, true, false, ◌&&◌, Option, none, some, List, all}
use fedora_firewall_control.Mode.{OperatingMode, OperatingModeLoadStatus}
use fedora_firewall_control.Firewall.{FirewallState}
use fedora_firewall_control.Readiness.Assess.{readiness_exit_code}
use fedora_firewall_control.CommandLine.{
  CommandLine, interactive, help, status, snapshot_json, snapshot_json_v2, readiness, listeners,
  threat_assessment, network_diagnostics, security_advisories, network_metadata, network_history,
  log_analysis, configure_ipify_key, mode, invalid,
}

pub record Answers : Type 0 where
  pub key_prompted : Bool
  pub key_saved : Bool
  pub mode_status : OperatingModeLoadStatus
  pub mode_saved : Bool
  pub traceroutes_available : List Bool
  pub probes_available : List Bool
  pub path_stability_available : Option Bool
  pub resolvers_available : List Bool
  pub advisories_succeeded : Bool
  pub logs_available : Bool
  pub history_available : Bool
  pub sockets_available : Bool
  pub lookup_succeeded : Bool
  pub history_saved : Bool
  pub posture : FirewallState

abbrev unless : Bool → ℕ
unless true = 0
unless false = 2

abbrev all_true : List Bool → Bool
all_true bs = all (λ b. b) bs

abbrev stability_ok : Option Bool → Bool
stability_ok none = true
stability_ok (some b) = b

abbrev mode_code : Option OperatingMode → Answers → ℕ
mode_code (some m) a = unless a.mode_saved
mode_code none a = elim a.mode_status [ OperatingModeLoadStatus.invalid ↦ 2 | _ ↦ 0 ]

-- `tools_ok` of the diagnostics branch: every tool of every probe could be run.
unfoldable pub diagnostics_ok : Answers → Bool
diagnostics_ok a =
    (all_true a.traceroutes_available && all_true a.probes_available)
    && (stability_ok a.path_stability_available && all_true a.resolvers_available)

unfoldable pub execute : CommandLine → Answers → ℕ
unfolding diagnostics_ok readiness_exit_code
execute command a = elim command.action [
  | invalid ↦ 2
  | help ↦ 0
  | configure_ipify_key ↦ unless (a.key_prompted && a.key_saved)
  | mode ↦ mode_code command.mode_to_set a
  | network_diagnostics ↦ unless (diagnostics_ok a)
  | security_advisories ↦ unless a.advisories_succeeded
  | log_analysis ↦ unless a.logs_available
  | network_history ↦ unless a.history_available
  | listeners ↦ unless a.sockets_available
  | network_metadata ↦ unless (a.lookup_succeeded && a.history_saved)
  | snapshot_json ↦ 0
  | snapshot_json_v2 ↦ 0
  | status ↦ unless a.posture.installed
  | readiness ↦ readiness_exit_code a.posture
  | threat_assessment ↦ 0
  | interactive ↦ 2
]
