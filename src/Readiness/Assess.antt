-- ===== src/Readiness/Assess.antt =====
-- `assess_readiness` of src/firewall/readiness.cpp and `readiness_exit_code` of
-- src/app/command_executor.cpp.
pub mod Exit
use fedora_firewall_control.Common.{ℕ, Bool, true, false, List, [], ◌∷◌, if◌then◌else◌}
use fedora_firewall_control.Firewall.{FirewallState}
use fedora_firewall_control.Readiness.{ReadinessCheck, pass, warn, fail, info}
use fedora_firewall_control.Readiness.Service.{
  mode_check, installed_check, active_check, enabled_check, panic_check, config_check,
  default_zone_check,
}
use fedora_firewall_control.Readiness.Transport.{
  network_manager_check, transport_check, tunnel_check, assignments_check, devices_check,
  sources_check,
}
use fedora_firewall_control.Readiness.Listeners.{listener_check, multicast_check, kernel_check}
use fedora_firewall_control.Readiness.Policy.{
  inbound_check, rich_rules_check, target_check, forward_ports_check, forwarding_check,
  masquerade_check, policies_check, coverage_check, aligned_check, diagnostics_check,
}

unfoldable pub assess_readiness : FirewallState → List ReadinessCheck
assess_readiness state =
    mode_check state
    ∷ installed_check state
    ∷ active_check state
    ∷ enabled_check state
    ∷ panic_check state
    ∷ config_check state
    ∷ default_zone_check state
    ∷ network_manager_check state
    ∷ transport_check state
    ∷ tunnel_check state
    ∷ assignments_check state
    ∷ devices_check state
    ∷ sources_check state
    ∷ listener_check state
    ∷ multicast_check state
    ∷ kernel_check state
    ∷ inbound_check state
    ∷ rich_rules_check state
    ∷ target_check state
    ∷ forward_ports_check state
    ∷ forwarding_check state
    ∷ masquerade_check state
    ∷ policies_check state
    ∷ coverage_check state
    ∷ aligned_check state
    ∷ diagnostics_check state

-- The loop of `readiness_exit_code`, with its flag.
unfoldable pub exit_code_of : Bool → List ReadinessCheck → ℕ
exit_code_of warned [] = if warned then 1 else 0
exit_code_of warned (c ∷ rest) = elim c.level [
  | fail ↦ 2
  | warn ↦ exit_code_of true rest
  | pass ↦ exit_code_of warned rest
  | info ↦ exit_code_of warned rest
]

unfoldable pub readiness_exit_code : FirewallState → ℕ
unfolding exit_code_of assess_readiness
readiness_exit_code state = exit_code_of false (assess_readiness state)
