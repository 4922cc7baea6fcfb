-- ===== src/Threat/Drift.antt =====
-- The drift test of the threat review against that of the readiness assessment.
use fedora_firewall_control.Common.{◌≡◌, refl, not, List, [], ◌∷◌, arith, any, all}
use fedora_firewall_control.Text.{Text}
use fedora_firewall_control.Firewall.{FirewallState, ZoneState}
use fedora_firewall_control.Readiness.Drift.{has_equal_policy, runtime_matches_permanent}
use fedora_firewall_control.Threat.Zones.{lacks_equal_policy, runtime_differs_from_permanent}

lacks-not-has :
    (permanent : List (Text × ZoneState)) (zone : Text × ZoneState)
    → lacks_equal_policy permanent zone ≡ not (has_equal_policy permanent zone)
unfolding lacks_equal_policy has_equal_policy
lacks-not-has permanent zone = ground arith

any-not-all :
    (permanent zones : List (Text × ZoneState))
    → any (lacks_equal_policy permanent) zones ≡ not (all (has_equal_policy permanent) zones)
any-not-all permanent [] = refl
any-not-all permanent (z ∷ zs) = ground (arith, lacks-not-has permanent z, any-not-all permanent zs)

-- The two views of drift, written apart in the source, are complements of one another.
pub differs-not-matches :
    (state : FirewallState)
    → runtime_differs_from_permanent state ≡ not (runtime_matches_permanent state)
unfolding runtime_differs_from_permanent runtime_matches_permanent
differs-not-matches state = ground (arith, any-not-all state.permanent_zones state.runtime_zones)
