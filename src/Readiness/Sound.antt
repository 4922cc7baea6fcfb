-- ===== src/Readiness/Sound.antt =====
-- What a zero readiness exit guarantees.
use fedora_firewall_control.Common.{
  ◌≡◌, ◌≢◌, ◌⊎◌, Bool, true, false, ◌&&◌, List, [], ◌∷◌, arith, All, any-eq-false, inl, inr, filter,
  All-filter,
}
use fedora_firewall_control.Text.{Text, lit}
use fedora_firewall_control.Firewall.{FirewallState, ZoneState, ObservationStatus}
use fedora_firewall_control.Readiness.Service.{
  installed_check, active_check, enabled_check, panic_check, config_check, default_zone_check,
}
use fedora_firewall_control.Readiness.Policy.{
  some_zone, has_exposure, forwards, masquerades, accepts, forwards_ports, has_forwarding_path,
  inbound_check, target_check, forward_ports_check, forwarding_check, masquerade_check,
  policies_check, aligned_check, diagnostics_check,
}
use fedora_firewall_control.Readiness.Assess.Exit.{IsClean, exit_code_of-zero}
use fedora_firewall_control.Firewall.Applicable.{
  is_zone_applicable, applicable_zone_details_available,
}
use fedora_firewall_control.Readiness.Drift.{runtime_matches_permanent}
use fedora_firewall_control.Readiness.Listeners.{listener_check, kernel_check}
use fedora_firewall_control.Readiness.Transport.{
  network_manager_check, connected_wifi, transport_check, tunnel_check, assignments_check,
  unclassified_connected_device, devices_check, sources_check,
}
use fedora_firewall_control.Sockets.Summary.{summarize_listener_exposure}
use fedora_firewall_control.Text.Laws.{text_eq_iff}
use fedora_firewall_control.Readiness.Assess.{assess_readiness, readiness_exit_code}

-- An applicable zone opens nothing: no service, port, protocol, source port, rich rule, forwarded
-- port or masquerading, and no target that accepts what is not matched.
pub record IsClosed (config : ZoneState) : Type 0 where
  pub services : config.services ≡ []
  pub ports : config.ports ≡ []
  pub protocols : config.protocols ≡ []
  pub source_ports : config.source_ports ≡ []
  pub rich_rules : config.rich_rules ≡ []
  pub forward_ports : config.forward_ports ≡ []
  pub masquerade : config.masquerade ≡ false
  pub target : config.target ≢ lit "ACCEPT"

-- The service, its configuration and its default zone were observed, and are as they should be.
pub record IsServing (s : FirewallState) : Type 0 where
  pub installed : s.installed ≡ true
  pub service_state : s.service_state ≡ ObservationStatus.available
  pub active : s.active ≡ true
  pub service_enablement : s.service_enablement ≡ ObservationStatus.available
  pub enabled : s.enabled ≡ true
  pub panic_state : s.panic_state ≡ ObservationStatus.available
  pub panic : s.panic ≡ false
  pub permanent_config : s.permanent_config ≡ ObservationStatus.available
  pub permanent_config_valid : s.permanent_config_valid ≡ true
  pub default_zone_status : s.default_zone_status ≡ ObservationStatus.available
  pub default_zone : s.default_zone ≢ []

module _ (s : FirewallState) where
  serving : All IsClean (assess_readiness s) → IsServing s
  unfolding assess_readiness installed_check active_check enabled_check panic_check config_check
      default_zone_check
  serving c = ground arith

-- The transports, the tunnels, the bindings, the listeners and the kernel journal were observed,
-- and none of them asks for a review.
pub record IsQuiet (s : FirewallState) : Type 0 where
  pub network_manager : s.network_manager.available ≡ true
  pub wifi : connected_wifi s ≡ false
  pub tunnels : s.vpn.interface_scan_available ≡ true
  pub active_zones : s.active_zones_status ≡ ObservationStatus.available
  pub bound : s.active_zone_interfaces ≢ []
  pub unbound : unclassified_connected_device s ≡ false
  pub sources : s.active_zone_sources ≡ []
  pub sockets : s.sockets.available ≡ true
  pub services : (summarize_listener_exposure s.sockets).logical_network_services ≡ 0
  pub kernel_journal : s.security_signals.kernel_journal_available ≡ true
  pub denials : s.security_signals.kernel_drop_or_reject_events ≡ 0

-- The runtime zones that are applicable
abbrev pub applicable_zones : FirewallState → List (Text × ZoneState)
applicable_zones s = filter (λ z. is_zone_applicable s z.0) s.runtime_zones

-- The policy was observed on both sides, nothing applicable is open, and nothing has drifted.
pub record IsTight (s : FirewallState) : Type 0 where
  pub details : applicable_zone_details_available s ≡ true
  pub closed : All (λ z. IsClosed z.1) (applicable_zones s)
  pub no_path : All (λ z. has_forwarding_path s z.0 z.1 ≡ false) (applicable_zones s)
  pub policies_status : s.active_policies_status ≡ ObservationStatus.available
  pub policies : s.active_policies ≡ []
  pub aligned : runtime_matches_permanent s ≡ true
  pub errors : s.errors ≡ []

module _ (s : FirewallState) where
  quiet : All IsClean (assess_readiness s) → IsQuiet s
  unfolding assess_readiness network_manager_check transport_check tunnel_check assignments_check
      devices_check sources_check listener_check kernel_check
  quiet c = ground arith

  closed_zone :
      (z : Text × ZoneState)
      → (is_zone_applicable s z.0 && has_exposure z.0 z.1) ≡ false
      → (is_zone_applicable s z.0 && accepts z.0 z.1) ≡ false
      → (is_zone_applicable s z.0 && forwards_ports z.0 z.1) ≡ false
      → (is_zone_applicable s z.0 && masquerades z.0 z.1) ≡ false
      → is_zone_applicable s z.0 ≡ true
      → IsClosed z.1
  unfolding accepts
  closed_zone z h1 h2 h3 h4 a = ground (arith, text_eq_iff z.1.target (lit "ACCEPT"))

  closed_zones :
      (zs : List (Text × ZoneState))
      → All (λ z. (is_zone_applicable s z.0 && has_exposure z.0 z.1) ≡ false) zs
      → All (λ z. (is_zone_applicable s z.0 && accepts z.0 z.1) ≡ false) zs
      → All (λ z. (is_zone_applicable s z.0 && forwards_ports z.0 z.1) ≡ false) zs
      → All (λ z. (is_zone_applicable s z.0 && masquerades z.0 z.1) ≡ false) zs
      → All (λ z. is_zone_applicable s z.0 ≡ true → IsClosed z.1) zs
  closed_zones [] _ _ _ _ = tt
  closed_zones (z ∷ zs) (h1, k1) (h2, k2) (h3, k3) (h4, k4) =
      (closed_zone z h1 h2 h3 h4, closed_zones zs k1 k2 k3 k4)

  -- A flag that is not raised, zone by zone.
  some_zone-eq-false :
      (p : Text → ZoneState → Bool)
      → some_zone s p ≡ false
      → All (λ z. (is_zone_applicable s z.0 && p z.0 z.1) ≡ false) s.runtime_zones
  unfolding some_zone
  some_zone-eq-false p h = any-eq-false _ s.runtime_zones h

  policy_flags :
      All IsClean (assess_readiness s)
      → (applicable_zone_details_available s ≡ true)
        × (some_zone s has_exposure ≡ false)
        × (some_zone s accepts ≡ false)
        × (some_zone s forwards_ports ≡ false)
        × (some_zone s masquerades ≡ false)
        × ((some_zone s forwards ≡ false) ⊎ (some_zone s (has_forwarding_path s) ≡ false))
  unfolding assess_readiness inbound_check target_check forward_ports_check forwarding_check
      masquerade_check
  policy_flags c = ground arith

  no_forwarding_path :
      (zs : List (Text × ZoneState))
      → All (λ z. (is_zone_applicable s z.0 && forwards z.0 z.1) ≡ false) zs
      → All (λ z. (is_zone_applicable s z.0 && has_forwarding_path s z.0 z.1) ≡ false) zs
  unfolding has_forwarding_path
  no_forwarding_path [] _ = tt
  no_forwarding_path (z ∷ zs) (h, hs) = (ground arith, no_forwarding_path zs hs)

  no_path_of :
      (zs : List (Text × ZoneState))
      → All (λ z. (is_zone_applicable s z.0 && has_forwarding_path s z.0 z.1) ≡ false) zs
      → All (λ z. is_zone_applicable s z.0 ≡ true → has_forwarding_path s z.0 z.1 ≡ false) zs
  no_path_of [] _ = tt
  no_path_of (z ∷ zs) (h, hs) = (λ a. ground arith, no_path_of zs hs)

  no_path_either :
      (some_zone s forwards ≡ false) ⊎ (some_zone s (has_forwarding_path s) ≡ false)
      → All
          (λ z. is_zone_applicable s z.0 ≡ true → has_forwarding_path s z.0 z.1 ≡ false)
          s.runtime_zones
  no_path_either f = no_path_of s.runtime_zones (elim f [
    | inl quiet ↦ no_forwarding_path s.runtime_zones (some_zone-eq-false forwards quiet)
    | inr no_path ↦ some_zone-eq-false (has_forwarding_path s) no_path
  ])

  inventory :
      All IsClean (assess_readiness s)
      → (s.active_policies_status ≡ ObservationStatus.available)
        × (s.active_policies ≡ [])
        × (runtime_matches_permanent s ≡ true)
        × (s.errors ≡ [])
  unfolding assess_readiness policies_check aligned_check diagnostics_check
  inventory c = ground arith

  tight : All IsClean (assess_readiness s) → IsTight s
  tight c =
      let (details, exposure, target, ports, masquerade, path) = policy_flags c in
      let (policies_status, policies, aligned, errors) = inventory c in
      record {
        details = details;
        closed =
            All-filter (λ z. IsClosed z.1) (λ z. is_zone_applicable s z.0) s.runtime_zones
              (closed_zones s.runtime_zones (some_zone-eq-false has_exposure exposure)
                (some_zone-eq-false accepts target) (some_zone-eq-false forwards_ports ports)
                (some_zone-eq-false masquerades masquerade));
        no_path =
            All-filter (λ z. has_forwarding_path s z.0 z.1 ≡ false) (λ z. is_zone_applicable s z.0)
              s.runtime_zones (no_path_either path);
        policies_status = policies_status;
        policies = policies;
        aligned = aligned;
        errors = errors;
      }

-- Every check is clean where the exit code is zero.
checks-IsClean : (s : FirewallState) → readiness_exit_code s ≡ 0 → All IsClean (assess_readiness s)
unfolding readiness_exit_code
checks-IsClean s h = (exit_code_of-zero false (assess_readiness s) h).1

-- If `ffc --readiness` exits with 0, then the service, the transports, the listeners, the kernel
-- journal and both sides of the policy were observed; firewalld is installed, running, enabled,
-- not in panic mode, and validly configured with a default zone; no Wi-Fi is connected, no
-- connected device is unbound and no source is bound; no service listens on the network and no
-- denial was logged; every applicable runtime zone is closed and forwards to no second member;
-- there is no active policy, no drift and no collection error.
pub readiness_exit_code-zero :
    (s : FirewallState) → readiness_exit_code s ≡ 0 → IsServing s × IsQuiet s × IsTight s
readiness_exit_code-zero s h = let c = checks-IsClean s h in (serving s c, quiet s c, tight s c)
