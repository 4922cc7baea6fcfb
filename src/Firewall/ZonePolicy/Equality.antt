-- ===== src/Firewall/ZonePolicy/Equality.antt =====
-- What the comparison of two zone policies decides.
use mathlib.Core.Logic.{◌↔◌}
use mathlib.Core.List.{Perm}
use fedora_firewall_control.Common.{◌≡◌, true, List, arith}
use fedora_firewall_control.Text.{Text, text_eq}
use fedora_firewall_control.Text.Laws.{text_eq_iff}
use fedora_firewall_control.Text.Order.{sort}
use fedora_firewall_control.Text.Sorting.{sort-eq_iff, texts_eq_iff}
use fedora_firewall_control.Firewall.{ZoneState}
use fedora_firewall_control.Firewall.ZonePolicy.{
  unordered_values_equal, zone_policies_equal, zone_policy_values_equal,
}

pub unordered_values_equal_iff : (s t : List Text) → (unordered_values_equal s t ≡ true) ↔ Perm s t
unfolding unordered_values_equal
unordered_values_equal_iff s t = (
  λ h. (sort-eq_iff s t).0 ((texts_eq_iff (sort s) (sort t)).0 h),
  λ p. (texts_eq_iff (sort s) (sort t)).1 ((sort-eq_iff s t).1 p),
)

-- The same policy: each list that has no order of its own up to that order, all else as it stands.
pub record IsSamePolicy (left right : ZoneState) : Type 0 where
  pub target : left.target ≡ right.target
  pub sources : Perm left.sources right.sources
  pub services : Perm left.services right.services
  pub ports : Perm left.ports right.ports
  pub protocols : Perm left.protocols right.protocols
  pub source_ports : Perm left.source_ports right.source_ports
  pub rich_rules : left.rich_rules ≡ right.rich_rules
  pub forward_ports : Perm left.forward_ports right.forward_ports
  pub masquerade : left.masquerade ≡ right.masquerade
  pub forward : left.forward ≡ right.forward
  pub details_valid : left.details_valid ≡ right.details_valid

same_policy_flags :
    (left right : ZoneState)
    → zone_policies_equal left right ≡ true
    → (text_eq left.target right.target ≡ true)
      × (unordered_values_equal left.sources right.sources ≡ true)
      × (unordered_values_equal left.services right.services ≡ true)
      × (unordered_values_equal left.ports right.ports ≡ true)
      × (unordered_values_equal left.protocols right.protocols ≡ true)
      × (unordered_values_equal left.source_ports right.source_ports ≡ true)
      × (left.rich_rules ≡ right.rich_rules)
      × (unordered_values_equal left.forward_ports right.forward_ports ≡ true)
      × (left.masquerade ≡ right.masquerade)
      × (left.forward ≡ right.forward)
      × (left.details_valid ≡ right.details_valid)
unfolding zone_policies_equal zone_policy_values_equal
same_policy_flags left right h = ground (arith, texts_eq_iff left.rich_rules right.rich_rules)

policies_equal-IsSamePolicy :
    (left right : ZoneState) → zone_policies_equal left right ≡ true → IsSamePolicy left right
policies_equal-IsSamePolicy left right h =
    let (t, so, se, po, pr, sp, r, fp, m, f, d) = same_policy_flags left right h in
    record {
      target = (text_eq_iff left.target right.target).0 t;
      sources = (unordered_values_equal_iff left.sources right.sources).0 so;
      services = (unordered_values_equal_iff left.services right.services).0 se;
      ports = (unordered_values_equal_iff left.ports right.ports).0 po;
      protocols = (unordered_values_equal_iff left.protocols right.protocols).0 pr;
      source_ports = (unordered_values_equal_iff left.source_ports right.source_ports).0 sp;
      rich_rules = r;
      forward_ports = (unordered_values_equal_iff left.forward_ports right.forward_ports).0 fp;
      masquerade = m;
      forward = f;
      details_valid = d;
    }

IsSamePolicy-policies_equal :
    (left right : ZoneState) → IsSamePolicy left right → zone_policies_equal left right ≡ true
unfolding zone_policies_equal zone_policy_values_equal
IsSamePolicy-policies_equal left right p = ground (
  arith,
  (text_eq_iff left.target right.target).1 p.target,
  (unordered_values_equal_iff left.sources right.sources).1 p.sources,
  (unordered_values_equal_iff left.services right.services).1 p.services,
  (unordered_values_equal_iff left.ports right.ports).1 p.ports,
  (unordered_values_equal_iff left.protocols right.protocols).1 p.protocols,
  (unordered_values_equal_iff left.source_ports right.source_ports).1 p.source_ports,
  (texts_eq_iff left.rich_rules right.rich_rules).1 p.rich_rules,
  (unordered_values_equal_iff left.forward_ports right.forward_ports).1 p.forward_ports,
)

-- `zone_policies_equal` decides that two zones have the same policy: equal targets, rich rules in
-- the same order, equal flags, and the same sources, services, ports, protocols, source ports and
-- forwarded ports, each with its repetitions and in any order. The interfaces and the name of the
-- zone play no part.
pub zone_policies_equal_iff :
    (left right : ZoneState) → (zone_policies_equal left right ≡ true) ↔ IsSamePolicy left right
zone_policies_equal_iff left right =
    (policies_equal-IsSamePolicy left right, IsSamePolicy-policies_equal left right)
