-- ===== src/Snapshot/Build/Risk.antt =====
-- What the risk of a snapshot stands for.
use fedora_firewall_control.Common.{
  ◌≡◌, ◌≢◌, arith, List, [], ◌∷◌, false, true, All, ◌↔◌, filter, All-filter,
}
use fedora_firewall_control.Text.{Text, lit}
use fedora_firewall_control.Text.Laws.{text_eq_iff}
use fedora_firewall_control.Firewall.{FirewallState, ZoneState, ObservationStatus}
use fedora_firewall_control.Firewall.Applicable.{
  is_zone_applicable, applicable_zone_details_available,
}
use fedora_firewall_control.Sockets.Summary.Counts.{
  is_nameless, summarize_listener_exposure-nameless,
}
use fedora_firewall_control.Snapshot.{DashboardRisk, DefconReadiness}
use fedora_firewall_control.Snapshot.Findings.{
  ActiveExposure, no_exposure, add_zone, add_zones, active_exposure, blockers, review_items,
  service_blockers, panic_blockers, inbound_reviews, forwarding_reviews, masquerading_reviews,
  policy_reviews, listener_reviews,
}
use fedora_firewall_control.Snapshot.Build.{make_dashboard_snapshot, risk_of, defcon_of}
use fedora_firewall_control.Mode.{hostile_network}

-- An applicable zone that the review has nothing to say of. Its services play no part.
pub record IsPlain (zone : ZoneState) : Type 0 where
  pub ports : zone.ports ≡ []
  pub protocols : zone.protocols ≡ []
  pub rich_rules : zone.rich_rules ≡ []
  pub forward : zone.forward ≡ false
  pub masquerade : zone.masquerade ≡ false
  pub target : zone.target ≢ lit "ACCEPT"

record IsNone (e : ActiveExposure) : Type 0 where
  ports : e.ports ≡ 0
  protocols : e.protocols ≡ 0
  rich_rules : e.rich_rules ≡ 0
  forwarding : e.forwarding ≡ false
  masquerading : e.masquerading ≡ false
  accept_target : e.accept_target ≡ false

module _ (s : FirewallState) where
  add_zone-IsNone :
      (e : ActiveExposure) (name : Text) (zone : ZoneState)
      → IsNone (add_zone s e name zone)
      → IsNone e × (is_zone_applicable s name ≡ true → IsPlain zone)
  unfolding add_zone
  add_zone-IsNone e name zone h =
      (ground arith, λ a. ground (arith, text_eq_iff zone.target (lit "ACCEPT")))

  add_zones-IsNone :
      (e : ActiveExposure) (zones : List (Text × ZoneState))
      → IsNone (add_zones s e zones)
      → IsNone e × All (λ z. is_zone_applicable s z.0 ≡ true → IsPlain z.1) zones
  unfolding add_zones
  add_zones-IsNone e [] h = (h, tt)
  add_zones-IsNone e ((name, zone) ∷ rest) h =
      let (first, others) = add_zones-IsNone (add_zone s e name zone) rest h in
      let (before, plain) = add_zone-IsNone e name zone first in (before, (plain, others))

  policy_reviews-IsNone :
      policy_reviews s ≡ []
      → applicable_zone_details_available s ≡ true
      → IsNone (active_exposure s)
  unfolding policy_reviews inbound_reviews forwarding_reviews masquerading_reviews
  policy_reviews-IsNone h a = ground arith

  policy_reviews-All :
      policy_reviews s ≡ []
      → applicable_zone_details_available s ≡ true
      → All (λ z. is_zone_applicable s z.0 ≡ true → IsPlain z.1) s.runtime_zones
  unfolding active_exposure
  policy_reviews-All h a =
      (add_zones-IsNone no_exposure s.runtime_zones (policy_reviews-IsNone h a)).1

-- What a snapshot that is ready for review rests on.
pub record IsReady (s : FirewallState) : Type 0 where
  pub installed : s.installed ≡ true
  pub service_state : s.service_state ≡ ObservationStatus.available
  pub active : s.active ≡ true
  pub panic : s.panic_state ≡ ObservationStatus.available → s.panic ≡ false
  pub listeners : s.sockets.available ≡ true → All (λ l. is_nameless l ≡ true) s.sockets.listeners

module _ (s : FirewallState) where
  risk-empty :
      (make_dashboard_snapshot s).risk ≡ DashboardRisk.ready
      → (service_blockers s ≡ [])
        × (panic_blockers s ≡ [])
        × (policy_reviews s ≡ [])
        × (listener_reviews s ≡ [])
  unfolding make_dashboard_snapshot risk_of blockers review_items
  risk-empty h = ground arith

listener_reviews-nameless :
    (s : FirewallState)
    → listener_reviews s ≡ []
    → s.sockets.available ≡ true
    → All (λ l. is_nameless l ≡ true) s.sockets.listeners
unfolding listener_reviews
listener_reviews-nameless s h a = summarize_listener_exposure-nameless s.sockets (ground arith)

-- A snapshot is ready for review only if firewalld is installed and its state was observed as
-- running, panic mode was not observed as on, and, where the listeners were scanned, none of them
-- is reachable from the network on a port that its endpoint names.
pub risk-IsReady :
    (s : FirewallState) → (make_dashboard_snapshot s).risk ≡ DashboardRisk.ready → IsReady s
unfolding service_blockers panic_blockers
risk-IsReady s h =
    let (service, panic, policy, listeners) = risk-empty s h in
    record {
      installed = ground arith;
      service_state = ground arith;
      active = ground arith;
      panic = λ observed. ground arith;
      listeners = listener_reviews-nameless s listeners;
    }

-- If a snapshot is ready for review and the detail of every applicable zone was observed, then no
-- applicable runtime zone has a port, a protocol, a rich rule, forwarding, masquerading or an
-- accepting target.
pub risk-IsPlain :
    (s : FirewallState)
    → (make_dashboard_snapshot s).risk ≡ DashboardRisk.ready
    → applicable_zone_details_available s ≡ true
    → All (λ z. IsPlain z.1) (filter (λ z. is_zone_applicable s z.0) s.runtime_zones)
risk-IsPlain s h a =
    let (service, panic, policy, listeners) = risk-empty s h in
    All-filter (λ z. IsPlain z.1) (λ z. is_zone_applicable s z.0) s.runtime_zones
      (policy_reviews-All s policy a)

-- In the hostile mode the readiness is always evaluated, and it is given exactly where the risk is
-- that of a snapshot ready for review.
pub defcon_readiness-hostile :
    (s : FirewallState)
    → s.operating_mode ≡ hostile_network
    → ((make_dashboard_snapshot s).defcon_readiness ≢ DefconReadiness.not_evaluated)
      × (((make_dashboard_snapshot s).defcon_readiness ≡ DefconReadiness.ready)
          ↔ ((make_dashboard_snapshot s).risk ≡ DashboardRisk.ready))
unfolding make_dashboard_snapshot risk_of defcon_of
defcon_readiness-hostile s h = ground arith
