-- ===== src/Readiness/Modes.antt =====
-- The hostile-network criteria against the normal ones.
use fedora_firewall_control.Common.{ℕ, ◌≤◌, ◌≡◌, refl, Bool, true, false, List, [], ◌∷◌, arith}
use fedora_firewall_control.Mode.{OperatingMode, normal, hostile_network}
use fedora_firewall_control.Firewall.{FirewallState, ZoneState}
use fedora_firewall_control.Readiness.{CheckLevel, ReadinessCheck, pass, warn, fail, info}
use fedora_firewall_control.Firewall.Applicable.{applicable_zone_details_available}
use fedora_firewall_control.Readiness.Assess.{exit_code_of, assess_readiness, readiness_exit_code}
use fedora_firewall_control.Readiness.Assess.Exit.{exit_code_of-bounds}
use fedora_firewall_control.Readiness.Policy.{
  some_zone, has_forwarding_path, applicable_rich_rules, has_exposure, forwards, masquerades,
  inbound_check, rich_rules_check, target_check, forward_ports_check, forwarding_check,
  masquerade_check, policies_check, coverage_check, aligned_check, diagnostics_check,
}
use fedora_firewall_control.Text.{Text}
use fedora_firewall_control.Readiness.Listeners.{listener_check, multicast_check, kernel_check}
use fedora_firewall_control.Readiness.Service.{
  mode_check, installed_check, active_check, enabled_check, panic_check, config_check,
  default_zone_check,
}
use fedora_firewall_control.Readiness.Transport.{
  network_manager_check, transport_check, tunnel_check, assignments_check, devices_check,
  sources_check,
}

abbrev pub with_mode : FirewallState → OperatingMode → FirewallState
with_mode s m = record s { operating_mode = m }

abbrev rank : CheckLevel → ℕ
rank pass = 0
rank info = 0
rank warn = 1
rank fail = 2

-- Check by check, the second list is no milder.
abbrev LevelsLe : List ReadinessCheck → List ReadinessCheck → Type 0
LevelsLe [] [] = Unit
LevelsLe (c ∷ cs) (d ∷ ds) = (rank c.level ≤ rank d.level) × LevelsLe cs ds
LevelsLe _ _ = ⊥

abbrev flag : Bool → ℕ
flag true = 1
flag false = 0

exit_code_of_mono :
    (v w : Bool) (cs ds : List ReadinessCheck)
    → flag v ≤ flag w
    → LevelsLe cs ds
    → exit_code_of v cs ≤ exit_code_of w ds
unfolding exit_code_of
exit_code_of_mono v w [] [] f h = ground arith
exit_code_of_mono v w [] (d ∷ ds) f h = absurd h
exit_code_of_mono v w (c ∷ cs) [] f h = absurd h
exit_code_of_mono v w (c ∷ cs) (d ∷ ds) f (le, h) = ground (
  arith,
  exit_code_of_mono v w cs ds,
  exit_code_of_mono true w cs ds,
  exit_code_of_mono v true cs ds,
  exit_code_of_mono true true cs ds,
  exit_code_of-bounds v cs,
  exit_code_of-bounds true cs,
)

module _ (s : FirewallState) (m : OperatingMode) where
  details-mode :
      applicable_zone_details_available (with_mode s m) ≡ applicable_zone_details_available s
  unfolding applicable_zone_details_available
  details-mode = refl

  some_zone-mode : (p : Text → ZoneState → Bool) → some_zone (with_mode s m) p ≡ some_zone s p
  unfolding some_zone
  some_zone-mode p = refl

  path-mode :
      some_zone (with_mode s m) (has_forwarding_path (with_mode s m))
      ≡ some_zone s (has_forwarding_path s)
  unfolding some_zone has_forwarding_path
  path-mode = refl

  applicable_rich_rules-mode : applicable_rich_rules (with_mode s m) ≡ applicable_rich_rules s
  unfolding applicable_rich_rules
  applicable_rich_rules-mode = refl

module _ (s : FirewallState) where
  -- The checks that read the mode, one by one.
  listener_check-le :
      rank (listener_check (with_mode s normal)).level
      ≤ rank (listener_check (with_mode s hostile_network)).level
  unfolding listener_check
  listener_check-le = ground arith

  multicast_check-le :
      rank (multicast_check (with_mode s normal)).level
      ≤ rank (multicast_check (with_mode s hostile_network)).level
  unfolding multicast_check
  multicast_check-le = ground arith

  inbound_check-le :
      rank (inbound_check (with_mode s normal)).level
      ≤ rank (inbound_check (with_mode s hostile_network)).level
  unfolding inbound_check
  inbound_check-le = ground (
    arith,
    details-mode s normal,
    details-mode s hostile_network,
    some_zone-mode s normal has_exposure,
    some_zone-mode s hostile_network has_exposure,
  )

  rich_rules_check-le :
      rank (rich_rules_check (with_mode s normal)).level
      ≤ rank (rich_rules_check (with_mode s hostile_network)).level
  unfolding rich_rules_check
  rich_rules_check-le = ground (
    arith,
    details-mode s normal,
    details-mode s hostile_network,
    applicable_rich_rules-mode s normal,
    applicable_rich_rules-mode s hostile_network,
  )

  forwarding_check-le :
      rank (forwarding_check (with_mode s normal)).level
      ≤ rank (forwarding_check (with_mode s hostile_network)).level
  unfolding forwarding_check
  forwarding_check-le = ground (
    arith,
    details-mode s normal,
    details-mode s hostile_network,
    some_zone-mode s normal forwards,
    some_zone-mode s hostile_network forwards,
    path-mode s normal,
    path-mode s hostile_network,
  )

  masquerade_check-le :
      rank (masquerade_check (with_mode s normal)).level
      ≤ rank (masquerade_check (with_mode s hostile_network)).level
  unfolding masquerade_check
  masquerade_check-le = ground (
    arith,
    details-mode s normal,
    details-mode s hostile_network,
    some_zone-mode s normal masquerades,
    some_zone-mode s hostile_network masquerades,
  )

diagnostics-le :
    (s : FirewallState)
    → LevelsLe
        (diagnostics_check (with_mode s normal))
        (diagnostics_check (with_mode s hostile_network))
unfolding diagnostics_check
diagnostics-le s = ground arith

levels-le :
    (s : FirewallState)
    → LevelsLe
        (assess_readiness (with_mode s normal))
        (assess_readiness (with_mode s hostile_network))
unfolding assess_readiness mode_check installed_check active_check enabled_check panic_check
    config_check default_zone_check network_manager_check transport_check tunnel_check
    assignments_check devices_check sources_check kernel_check target_check forward_ports_check
    policies_check coverage_check aligned_check diagnostics_check
levels-le s = ground (
  arith,
  listener_check-le s,
  multicast_check-le s,
  inbound_check-le s,
  rich_rules_check-le s,
  forwarding_check-le s,
  masquerade_check-le s,
  diagnostics-le s,
)

-- Hostile-network criteria never judge a state more mildly than the normal ones.
pub readiness_exit_code-hostile :
    (s : FirewallState)
    → readiness_exit_code (with_mode s normal) ≤ readiness_exit_code (with_mode s hostile_network)
unfolding readiness_exit_code
readiness_exit_code-hostile s =
    exit_code_of_mono false false (assess_readiness (with_mode s normal))
      (assess_readiness (with_mode s hostile_network)) (omega arith) (levels-le s)
