-- ===== src/Snapshot/Evidence/Gaps.antt =====
-- The gaps of the evidence components.
use fedora_firewall_control.Common.{
  ◌≡◌, refl, not, ◌||◌, List, [], ◌∷◌, ◌++◌, map, filter, arith, if◌then◌else◌,
}
use fedora_firewall_control.Text.{lit}
use fedora_firewall_control.Firewall.{FirewallState, ObservationStatus, observation_available}
use fedora_firewall_control.Snapshot.{ComponentEvidence}
use fedora_firewall_control.Snapshot.Evidence.{
  evidence_components, component_gaps, overall_evidence,
}

-- Each component that is not available gives one gap, named for it, in the order of the
-- components; no other component gives one.
pub component_gaps-id :
    (cs : List ComponentEvidence)
    → map (λ f. f.id) (component_gaps cs)
      ≡ map
          (λ c. lit "evidence." ++ c.component)
          (filter (λ c. not (observation_available c.status)) cs)
unfolding component_gaps
component_gaps-id [] = refl
component_gaps-id (c ∷ cs) = ground (arith, component_gaps-id cs)

-- The overall evidence of a snapshot is never complete, since two of its components are never
-- collected; it is partial where the runtime or the permanent policy, the device inventory, the
-- listeners, the kernel journal or the service journal were available, and else unavailable.
pub overall_evidence_lem :
    (s : FirewallState)
    → overall_evidence (evidence_components s) ≡ (
        if observation_available s.runtime_zones_status
          || observation_available s.permanent_zones_status
          || s.network_manager.available
          || s.sockets.available
          || s.security_signals.kernel_journal_available
          || s.security_signals.firewalld_journal_available
        then ObservationStatus.partial
        else ObservationStatus.unavailable)
unfolding overall_evidence evidence_components
overall_evidence_lem s = ground arith
