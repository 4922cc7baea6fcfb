-- ===== src/CommandLine/Names.antt =====
-- The names of the actions against the options that select them.
use fedora_firewall_control.Common.{
  ◌≡◌, refl, ◌≢◌, [], ◌∷◌, ◌++◌, arith, List, none, true, ◌⊎◌, false,
}
use fedora_firewall_control.Text.{Text, lit, text_eq}
use fedora_firewall_control.CommandLine.{
  CommandAction, make_command, parse_command_line, command_action_name, option_action, interactive,
  invalid, help, status, snapshot_json, snapshot_json_v2, readiness, listeners, threat_assessment,
  network_diagnostics, security_advisories, network_metadata, network_history, log_analysis,
  configure_ipify_key, mode, parse_pair, set_mode,
}

-- An action other than `interactive`, which has no option, is selected by two dashes and its
-- name, and by itself sets no flag and no mode. (`--invalid` selects `invalid` by being no
-- option.)
pub parse_command_line-name :
    (action : CommandAction)
    → action ≢ interactive
    → parse_command_line ((lit "--" ++ command_action_name action) ∷ []) ≡ make_command action
unfolding parse_command_line option_action command_action_name make_command text_eq lit
parse_command_line-name interactive h = absurd (h refl)
parse_command_line-name help h = refl
parse_command_line-name status h = refl
parse_command_line-name snapshot_json h = refl
parse_command_line-name snapshot_json_v2 h = refl
parse_command_line-name readiness h = refl
parse_command_line-name listeners h = refl
parse_command_line-name threat_assessment h = refl
parse_command_line-name network_diagnostics h = refl
parse_command_line-name security_advisories h = refl
parse_command_line-name network_metadata h = refl
parse_command_line-name network_history h = refl
parse_command_line-name log_analysis h = refl
parse_command_line-name configure_ipify_key h = refl
parse_command_line-name mode h = refl
parse_command_line-name invalid h = refl

-- Only `network-metadata` is enriched, only `network-diagnostics` is extended, advanced diagnostics
-- are extended ones, and a mode is set by `mode` alone, whatever the arguments are.
pub parse_command_line-flags :
    (arguments : List Text)
    → let c = parse_command_line arguments in
      ((c.enrich_metadata ≡ false) ⊎ (c.action ≡ network_metadata))
      × ((c.extended_diagnostics ≡ false) ⊎ (c.action ≡ network_diagnostics))
      × ((c.advanced_diagnostics ≡ false) ⊎ (c.extended_diagnostics ≡ true))
      × ((c.mode_to_set ≡ none) ⊎ (c.action ≡ mode))
unfolding parse_command_line parse_pair set_mode make_command
parse_command_line-flags [] = ground arith
parse_command_line-flags (a ∷ []) = ground arith
parse_command_line-flags (a ∷ b ∷ []) = ground arith
parse_command_line-flags (a ∷ b ∷ c ∷ rest) = ground arith
