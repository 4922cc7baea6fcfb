-- ===== src/Backend/Inspect.antt =====
-- `FirewalldCommandBackend::inspect` of src/firewall/firewalld_backend.cpp.
pub mod Sound
use fedora_firewall_control.Common.{
  Bool, true, false, not, ◌&&◌, ◌||◌, List, [], ◌∷◌, ◌++◌, if◌then◌else◌,
}
use fedora_firewall_control.Text.{Text, lit, text_eq}
use fedora_firewall_control.Text.Words.{split_words}
use fedora_firewall_control.Command.{success, CommandRunner, CommandResult}
use fedora_firewall_control.Firewall.{
  FirewallState, ObservationStatus, observation_available, no_state,
}
use fedora_firewall_control.Backend.{
  parse_service_enablement, add_error, with_panic, with_config, with_log_denied, with_default_zone,
  with_active_zones, with_runtime_zones, with_permanent_zones, with_policies, with_known_default,
  PostureCollectionDepth, landing, complete,
}

is_running : List Text → Bool
is_running (value ∷ []) = text_eq value (lit "running")
is_running _ = false

is_not_running : List Text → Bool
is_not_running (first ∷ second ∷ []) = text_eq first (lit "not") && text_eq second (lit "running")
is_not_running _ = false

-- `--state` and `systemctl is-enabled`
unfoldable pub service_view : CommandResult → CommandResult → FirewallState → FirewallState
unfolding is_running is_not_running split_words parse_service_enablement
service_view running enabled state =
    let running_values = split_words running.stdout_text in
    let active = success running && is_running running_values in
    let enablement = parse_service_enablement enabled in
    record state {
      active = active;
      service_state =
          if active || is_not_running running_values
          then ObservationStatus.available
          else ObservationStatus.unavailable;
      service_enablement = enablement.0;
      enabled = enablement.1;
    }

inactive_error : CommandResult → FirewallState → Text
inactive_error running state =
    if observation_available state.service_state
    then lit "firewalld is not active"
    else lit "could not determine whether firewalld is active: " ++ running.stderr_text

-- The queries of an active service at every depth.
unfoldable pub active_view : CommandRunner → FirewallState → FirewallState
active_view run state =
    let s1 = with_panic (run (lit "firewall-cmd" ∷ lit "--query-panic" ∷ [])) state in
    let s2 = with_config (run (lit "firewall-cmd" ∷ lit "--check-config" ∷ [])) s1 in
    let s3 = with_log_denied (run (lit "firewall-cmd" ∷ lit "--get-log-denied" ∷ [])) s2 in
    let s4 = with_default_zone (run (lit "firewall-cmd" ∷ lit "--get-default-zone" ∷ [])) s3 in
    let s5 = with_active_zones (run (lit "firewall-cmd" ∷ lit "--get-active-zones" ∷ [])) s4 in
    with_runtime_zones (run (lit "firewall-cmd" ∷ lit "--list-all-zones" ∷ [])) s5

-- The queries of the complete depth.
unfoldable pub complete_view :
    CommandRunner → PostureCollectionDepth → FirewallState → FirewallState
complete_view run landing state = state
complete_view run complete state =
    with_policies (run (lit "firewall-cmd" ∷ lit "--get-active-policies" ∷ [])) (
      with_permanent_zones
        (run (lit "firewall-cmd" ∷ lit "--permanent" ∷ lit "--list-all-zones" ∷ [])) state)

unfoldable pub inspect : CommandRunner → PostureCollectionDepth → FirewallState
unfolding service_view inactive_error active_view complete_view with_known_default
inspect run depth =
    let version = run (lit "firewall-cmd" ∷ lit "--version" ∷ []) in
    let running = run (lit "firewall-cmd" ∷ lit "--state" ∷ []) in
    let enabled = run (lit "systemctl" ∷ lit "is-enabled" ∷ lit "firewalld.service" ∷ []) in
    let found = record no_state {
      installed = true;
      installation_status = ObservationStatus.available;
    } in
    let state = service_view running enabled found in
    if not (success version)
    then add_error (lit "firewall-cmd unavailable: " ++ version.stderr_text) no_state
    else if not state.active
    then add_error (inactive_error running state) state
    else with_known_default (complete_view run depth (active_view run state))
