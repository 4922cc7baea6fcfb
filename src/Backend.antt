-- ===== src/Backend.antt =====
-- src/firewall/firewalld_backend.cpp: the firewalld view of a snapshot. The answers of the tools
-- come from the runner, one command line each.
pub mod Inspect
use fedora_firewall_control.Common.{
  Bool, true, false, not, ◌&&◌, ◌||◌, List, [], ◌∷◌, ◌++◌, if◌then◌else◌, is_empty, any,
}
use fedora_firewall_control.Text.{Text, lit, text_eq, trim_copy}
use fedora_firewall_control.Text.Words.{split_words}
use fedora_firewall_control.Text.Order.{member}
use fedora_firewall_control.Dict.{has_key}
use fedora_firewall_control.Command.{is_code, success, CommandRunner, CommandResult, pos, negsuc}
use fedora_firewall_control.Firewall.{
  FirewallState, ZoneState, ObservationStatus, available, partial, unavailable,
  observation_available,
}
use fedora_firewall_control.Firewall.ZoneParser.{parse_all_zone_info}
use fedora_firewall_control.Firewall.ActiveZones.{
  parse_active_zones, parse_active_zone_sources, parse_active_policy_names,
}

-- include/ffc/firewall_backend.hpp
pub data PostureCollectionDepth : Type 0 where
  landing complete : PostureCollectionDepth

unfoldable pub command_responded : CommandResult → Bool
command_responded result = elim result.exit_code [ pos n ↦ true | negsuc n ↦ false ]

known_states : List Text
known_states =
    lit "enabled"
    ∷ lit "enabled-runtime"
    ∷ lit "disabled"
    ∷ lit "masked"
    ∷ lit "static"
    ∷ lit "indirect"
    ∷ lit "generated"
    ∷ lit "transient"
    ∷ lit "linked"
    ∷ lit "linked-runtime"
    ∷ []

enablement_of : List Text → ObservationStatus × Bool
enablement_of [] = (ObservationStatus.partial, false)
enablement_of (value ∷ rest) =
    if member value known_states
    then (
      ObservationStatus.available,
      text_eq value (lit "enabled") || text_eq value (lit "enabled-runtime"),
    )
    else (ObservationStatus.partial, false)

-- The status, and the flag that the source returns by reference.
unfoldable pub parse_service_enablement : CommandResult → ObservationStatus × Bool
unfolding command_responded enablement_of known_states split_words
parse_service_enablement result =
    if not (command_responded result)
    then (ObservationStatus.unavailable, false)
    else enablement_of (split_words result.stdout_text)

unfoldable pub known_log_denied_value : Text → Bool
unfolding member
known_log_denied_value value =
    member value (lit "off" ∷ lit "all" ∷ lit "unicast" ∷ lit "broadcast" ∷ lit "multicast" ∷ [])

unfoldable pub has_recognized_zone_details : List (Text × ZoneState) → Bool
has_recognized_zone_details zones = any (λ z. z.1.details_valid && not (is_empty z.1.target)) zones

abbrev firewalld_cmd : CommandRunner → List Text → CommandResult
firewalld_cmd run args = run (lit "firewall-cmd" ∷ args)

abbrev pub add_error : Text → FirewallState → FirewallState
add_error why state = record state { errors = state.errors ++ why ∷ [] }

-- `--query-panic`
unfoldable pub with_panic : CommandResult → FirewallState → FirewallState
with_panic panic state =
    let answered = is_code 0 panic.exit_code || is_code 1 panic.exit_code in
    let known = record state {
      panic_state = if answered then ObservationStatus.available else ObservationStatus.unavailable;
      panic = is_code 0 panic.exit_code;
    } in
    if answered
    then known
    else add_error (lit "could not query panic mode: " ++ panic.stderr_text) known

-- `--check-config`
unfoldable pub with_config : CommandResult → FirewallState → FirewallState
unfolding command_responded
with_config config_check state =
    let responded = command_responded config_check in
    let known = record state {
      permanent_config_checked = responded;
      permanent_config =
          if responded then ObservationStatus.available else ObservationStatus.unavailable;
      permanent_config_valid = success config_check;
    } in
    if success config_check
    then known
    else add_error (lit "permanent configuration check failed: " ++ config_check.stderr_text) known

no_log_denied : FirewallState → FirewallState
no_log_denied state =
    add_error (lit "denied-packet logging query returned no value")
      (record state { denied_logging_status = ObservationStatus.partial })

log_denied_of : List Text → FirewallState → FirewallState
log_denied_of (value ∷ []) state =
    if known_log_denied_value value
    then record state { log_denied = value; denied_logging_status = ObservationStatus.available }
    else no_log_denied state
log_denied_of _ state = no_log_denied state

-- `--get-log-denied`
unfoldable pub with_log_denied : CommandResult → FirewallState → FirewallState
unfolding log_denied_of no_log_denied known_log_denied_value split_words
with_log_denied log_denied state =
    if success log_denied
    then log_denied_of (split_words log_denied.stdout_text) state
    else add_error (lit "could not read denied-packet logging setting: " ++ log_denied.stderr_text)
        state

default_zone_of : List Text → FirewallState → FirewallState
default_zone_of (value ∷ []) state = record state {
  default_zone = value;
  default_zone_status = ObservationStatus.available;
}
default_zone_of _ state =
    add_error (lit "default-zone query returned no value")
      (record state { default_zone_status = ObservationStatus.partial })

-- `--get-default-zone`
unfoldable pub with_default_zone : CommandResult → FirewallState → FirewallState
unfolding default_zone_of split_words
with_default_zone default_zone state =
    if success default_zone
    then default_zone_of (split_words default_zone.stdout_text) state
    else add_error (lit "could not determine default zone: " ++ default_zone.stderr_text) state

abbrev recognized : Bool → ObservationStatus
recognized true = ObservationStatus.available
recognized false = ObservationStatus.partial

-- An error unless the status is available.
abbrev noting : ObservationStatus → Text → FirewallState → FirewallState
noting status why state = if observation_available status then state else add_error why state

-- `--get-active-zones`
unfoldable pub with_active_zones : CommandResult → FirewallState → FirewallState
unfolding parse_active_zones parse_active_zone_sources trim_copy
with_active_zones active_zones state =
    let bound = parse_active_zones active_zones.stdout_text in
    let sourced = parse_active_zone_sources active_zones.stdout_text in
    let status = recognized (
      is_empty (trim_copy active_zones.stdout_text)
      || not (is_empty bound)
      || not (is_empty sourced)) in
    if success active_zones
    then noting status (lit "active-zone query returned unrecognized output") (record state {
      active_zone_interfaces = bound;
      active_zone_sources = sourced;
      active_zones_status = status;
    })
    else add_error (lit "could not list active zones: " ++ active_zones.stderr_text) state

-- `--list-all-zones`
unfoldable pub with_runtime_zones : CommandResult → FirewallState → FirewallState
unfolding parse_all_zone_info has_recognized_zone_details
with_runtime_zones runtime_zones state =
    let zones = parse_all_zone_info runtime_zones.stdout_text in
    let status = recognized (has_recognized_zone_details zones) in
    if success runtime_zones
    then noting status (lit "runtime-zone query returned no recognized zones")
        (record state { runtime_zones = zones; runtime_zones_status = status })
    else add_error (lit "could not inspect runtime zones: " ++ runtime_zones.stderr_text) state

-- `--permanent --list-all-zones`
unfoldable pub with_permanent_zones : CommandResult → FirewallState → FirewallState
unfolding parse_all_zone_info has_recognized_zone_details
with_permanent_zones permanent_zones state =
    let zones = parse_all_zone_info permanent_zones.stdout_text in
    let status = recognized (has_recognized_zone_details zones) in
    if success permanent_zones
    then noting status (lit "permanent-zone query returned no recognized zones")
        (record state { permanent_zones = zones; permanent_zones_status = status })
    else add_error (lit "could not inspect permanent zones: " ++ permanent_zones.stderr_text) state

-- `--get-active-policies`
unfoldable pub with_policies : CommandResult → FirewallState → FirewallState
unfolding parse_active_policy_names trim_copy
with_policies policies state =
    let names = parse_active_policy_names policies.stdout_text in
    let status = recognized (is_empty (trim_copy policies.stdout_text) || not (is_empty names)) in
    if success policies
    then noting status (lit "active-policy query returned unrecognized output")
        (record state { active_policies = names; active_policies_status = status })
    else add_error (lit "could not list active policies: " ++ policies.stderr_text) state

-- The last test of `inspect`: the default zone has to be among the runtime zones.
unfoldable pub with_known_default : FirewallState → FirewallState
unfolding has_key
with_known_default state =
    if observation_available state.default_zone_status
      && observation_available state.runtime_zones_status
      && not (has_key state.default_zone state.runtime_zones)
    then add_error (lit "default zone is absent from runtime-zone output")
        (record state { default_zone_status = ObservationStatus.partial })
    else state
