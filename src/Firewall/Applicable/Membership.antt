-- ===== src/Firewall/Applicable/Membership.antt =====
-- Which zones are applicable.
use fedora_firewall_control.Common.{◌≡◌, ◌&&◌, ◌||◌, List, [], ◌∷◌, arith, refl, not, is_empty}
use fedora_firewall_control.Text.{Text, text_eq}
use fedora_firewall_control.Text.Laws.{text_eq_iff}
use fedora_firewall_control.Text.Order.{member, set_insert}
use fedora_firewall_control.Dict.{lookup, has_key}
use fedora_firewall_control.Firewall.{FirewallState, observation_available}
use fedora_firewall_control.Firewall.Applicable.{
  is_zone_applicable, applicable_zone_names, insert_keys, is_zone_active, default_zone_applies,
}

-- `member` takes the sought text first and compares the element with it.
member-set_insert :
    (z x : Text) (l : List Text) → member z (set_insert x l) ≡ (text_eq x z || member z l)
unfolding member set_insert
member-set_insert z x [] = refl
member-set_insert z x (y ∷ l) =
    ground (arith, member-set_insert z x l, text_eq_iff x z, text_eq_iff y z, text_eq_iff y x)

member-insert_keys {ℓ} :
    {V : Type ℓ} (z : Text) (m : List (Text × V)) (l : List Text)
    → member z (insert_keys m l) ≡ (has_key z m || member z l)
unfolding insert_keys has_key lookup
member-insert_keys z [] l = refl
member-insert_keys z ((k, v) ∷ m) l =
    ground (arith, member-insert_keys z m (set_insert k l), member-set_insert z k l)

-- A zone is applicable where it is active (some interface or source is bound to it), or where it is
-- the default zone, that zone was observed and has a name, and NetworkManager is unavailable or
-- reports a connected transport device that no active zone lists; and in no other case.
pub is_zone_applicable_iff :
    (s : FirewallState) (z : Text)
    → is_zone_applicable s z ≡ (
        is_zone_active s z
        || (default_zone_applies s
            && observation_available s.default_zone_status
            && not (is_empty s.default_zone)
            && text_eq s.default_zone z))
unfolding is_zone_applicable applicable_zone_names is_zone_active member
is_zone_applicable_iff s z = ground (
  arith,
  member-insert_keys z s.active_zone_interfaces [],
  member-insert_keys z s.active_zone_sources (insert_keys s.active_zone_interfaces []),
  member-set_insert z s.default_zone
      (insert_keys s.active_zone_sources (insert_keys s.active_zone_interfaces [])),
)
