-- ===== src/Backend/Inspect/Sound.antt =====
-- What the firewalld backend promises of its state.
use fedora_firewall_control.Common.{◌≡◌, ◌≢◌, arith, [], false, refl, ◌∙◌, true, List, ◌∷◌, ◌++◌}
use fedora_firewall_control.Command.{CommandResult, CommandRunner}
use fedora_firewall_control.Firewall.{FirewallState, ObservationStatus, no_state}
use fedora_firewall_control.Backend.{
  add_error, with_panic, with_config, with_log_denied, with_default_zone, with_active_zones,
  with_runtime_zones, with_permanent_zones, with_policies, with_known_default,
  PostureCollectionDepth, no_log_denied, log_denied_of, default_zone_of, landing, complete,
}
use fedora_firewall_control.Backend.Inspect.{
  inspect, service_view, inactive_error, active_view, complete_view,
}
use fedora_firewall_control.Dict.{has_key}
use fedora_firewall_control.Text.{Text, lit}
use fedora_firewall_control.Text.Words.{split_words}

-- Nothing of the policy was observed.
pub record IsUnobserved (s : FirewallState) : Type 0 where
  pub panic_state : s.panic_state ≡ ObservationStatus.unavailable
  pub permanent_config : s.permanent_config ≡ ObservationStatus.unavailable
  pub default_zone_status : s.default_zone_status ≡ ObservationStatus.unavailable
  pub active_zones : s.active_zones_status ≡ ObservationStatus.unavailable
  pub runtime_zones : s.runtime_zones_status ≡ ObservationStatus.unavailable
  pub permanent_zones : s.permanent_zones_status ≡ ObservationStatus.unavailable
  pub policies : s.active_policies_status ≡ ObservationStatus.unavailable
  pub zones : s.runtime_zones ≡ []
  pub errors : s.errors ≢ []

-- The steps behind the first one leave it alone whether the service runs.
with_panic-active : (r : CommandResult) (s : FirewallState) → (with_panic r s).active ≡ s.active
unfolding with_panic
with_panic-active r s = ground arith

with_config-active : (r : CommandResult) (s : FirewallState) → (with_config r s).active ≡ s.active
unfolding with_config
with_config-active r s = ground arith

log_denied_of-active :
    (words : List Text) (s : FirewallState) → (log_denied_of words s).active ≡ s.active
unfolding log_denied_of no_log_denied
log_denied_of-active [] s = refl
log_denied_of-active (x ∷ []) s = ground arith
log_denied_of-active (x ∷ y ∷ rest) s = refl

with_log_denied-active :
    (r : CommandResult) (s : FirewallState) → (with_log_denied r s).active ≡ s.active
unfolding with_log_denied
with_log_denied-active r s = ground (arith, log_denied_of-active (split_words r.stdout_text) s)

default_zone_of-active :
    (words : List Text) (s : FirewallState) → (default_zone_of words s).active ≡ s.active
unfolding default_zone_of
default_zone_of-active [] s = refl
default_zone_of-active (x ∷ []) s = refl
default_zone_of-active (x ∷ y ∷ rest) s = refl

with_default_zone-active :
    (r : CommandResult) (s : FirewallState) → (with_default_zone r s).active ≡ s.active
unfolding with_default_zone
with_default_zone-active r s = ground (arith, default_zone_of-active (split_words r.stdout_text) s)

with_active_zones-active :
    (r : CommandResult) (s : FirewallState) → (with_active_zones r s).active ≡ s.active
unfolding with_active_zones
with_active_zones-active r s = ground arith

with_runtime_zones-active :
    (r : CommandResult) (s : FirewallState) → (with_runtime_zones r s).active ≡ s.active
unfolding with_runtime_zones
with_runtime_zones-active r s = ground arith

with_permanent_zones-active :
    (r : CommandResult) (s : FirewallState) → (with_permanent_zones r s).active ≡ s.active
unfolding with_permanent_zones
with_permanent_zones-active r s = ground arith

with_policies-active :
    (r : CommandResult) (s : FirewallState) → (with_policies r s).active ≡ s.active
unfolding with_policies
with_policies-active r s = ground arith

with_known_default-active : (s : FirewallState) → (with_known_default s).active ≡ s.active
unfolding with_known_default
with_known_default-active s = ground arith

active_view-active :
    (run : CommandRunner) (s : FirewallState) → (active_view run s).active ≡ s.active
unfolding active_view
active_view-active run s =
    with_runtime_zones-active _ _
    ∙ with_active_zones-active _ _
    ∙ with_default_zone-active _ _
    ∙ with_log_denied-active _ _
    ∙ with_config-active _ _
    ∙ with_panic-active _ s

complete_view-active :
    (run : CommandRunner) (depth : PostureCollectionDepth) (s : FirewallState)
    → (complete_view run depth s).active ≡ s.active
unfolding complete_view
complete_view-active run landing s = refl
complete_view-active run complete s = with_policies-active _ _ ∙ with_permanent_zones-active _ s

abbrev found : FirewallState
found = record no_state { installed = true; installation_status = ObservationStatus.available }

abbrev queried : CommandRunner → FirewallState
queried run =
    service_view (run (lit "firewall-cmd" ∷ lit "--state" ∷ []))
      (run (lit "systemctl" ∷ lit "is-enabled" ∷ lit "firewalld.service" ∷ [])) found

active_path :
    (run : CommandRunner) (depth : PostureCollectionDepth)
    → (with_known_default (complete_view run depth (active_view run (queried run)))).active
      ≡ (queried run).active
active_path run depth =
    with_known_default-active _ ∙ complete_view-active run depth _ ∙ active_view-active run _

snoc-ne-nil : (xs : List Text) (x : Text) → xs ++ x ∷ [] ≢ []
snoc-ne-nil [] x = λ e. ground arith
snoc-ne-nil (y ∷ xs) x = λ e. ground arith

idle-IsUnobserved :
    (running enabled : CommandResult) (why : Text)
    → IsUnobserved (add_error why (service_view running enabled found))
unfolding service_view
idle-IsUnobserved running enabled why = ground (arith, snoc-ne-nil [] why)

missing-IsUnobserved : (why : Text) → IsUnobserved (add_error why no_state)
missing-IsUnobserved why = ground (arith, snoc-ne-nil [] why)

-- Where firewalld is not known to run, be it missing, stopped, or of an unknown state, the
-- backend reports an error, no runtime zone, and as unobserved the panic mode, the configuration
-- check, the default zone, the active, runtime and permanent zones and the policies.
pub inspect-IsUnobserved :
    (run : CommandRunner) (depth : PostureCollectionDepth)
    → (inspect run depth).active ≡ false
    → IsUnobserved (inspect run depth)
unfolding inspect
inspect-IsUnobserved run depth h = ground (
  arith,
  active_path run depth,
  missing-IsUnobserved (
      lit "firewall-cmd unavailable: "
      ++ (run (lit "firewall-cmd" ∷ lit "--version" ∷ [])).stderr_text),
  idle-IsUnobserved (run (lit "firewall-cmd" ∷ lit "--state" ∷ []))
      (run (lit "systemctl" ∷ lit "is-enabled" ∷ lit "firewalld.service" ∷ []))
      (inactive_error (run (lit "firewall-cmd" ∷ lit "--state" ∷ [])) (queried run)),
)

known_default-has_key :
    (s : FirewallState)
    → (with_known_default s).default_zone_status ≡ ObservationStatus.available
    → (with_known_default s).runtime_zones_status ≡ ObservationStatus.available
    → has_key (with_known_default s).default_zone (with_known_default s).runtime_zones ≡ true
unfolding with_known_default
known_default-has_key s h k = ground arith

-- Where the backend reports both the default zone and the runtime zones as available, the default
-- zone is one of the runtime zones.
pub inspect-has_key :
    (run : CommandRunner) (depth : PostureCollectionDepth)
    → (inspect run depth).default_zone_status ≡ ObservationStatus.available
    → (inspect run depth).runtime_zones_status ≡ ObservationStatus.available
    → has_key (inspect run depth).default_zone (inspect run depth).runtime_zones ≡ true
unfolding inspect
inspect-has_key run depth h k = ground (
  arith,
  known_default-has_key (complete_view run depth (active_view run (queried run))),
  (missing-IsUnobserved (
      lit "firewall-cmd unavailable: "
      ++ (run (lit "firewall-cmd" ∷ lit "--version" ∷ [])).stderr_text)).default_zone_status,
  (idle-IsUnobserved (run (lit "firewall-cmd" ∷ lit "--state" ∷ []))
      (run (lit "systemctl" ∷ lit "is-enabled" ∷ lit "firewalld.service" ∷ []))
      (inactive_error (run (lit "firewall-cmd" ∷ lit "--state" ∷ []))
        (queried run))).default_zone_status,
)
