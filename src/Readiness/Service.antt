-- ===== src/Readiness/Service.antt =====
-- The checks of the service and its configuration.
use fedora_firewall_control.Common.{not, [], if◌then◌else◌, is_empty}
use fedora_firewall_control.Text.{lit}
use fedora_firewall_control.Mode.{is_hostile}
use fedora_firewall_control.Firewall.{FirewallState, observation_available}
use fedora_firewall_control.Readiness.{
  check, unavailable_check, ReadinessCheck, pass, warn, fail, info,
}

unfoldable pub mode_check : FirewallState → ReadinessCheck
mode_check state =
    let hostile = is_hostile state.operating_mode in
    check (lit "assessment mode") (if hostile then pass else info) (
      if hostile
      then lit "hostile-network criteria active; no firewall setting was changed"
      else lit "normal criteria active")

unfoldable pub installed_check : FirewallState → ReadinessCheck
installed_check state =
    check (lit "firewalld installed") (if state.installed then pass else fail)
      (if state.installed then [] else lit "firewall-cmd was unavailable")

unfoldable pub active_check : FirewallState → ReadinessCheck
active_check state =
    let unknown = not (observation_available state.service_state) in
    check (lit "firewalld active") (if unknown then warn else if state.active then pass else fail) (
      if unknown
      then lit "firewalld state query unavailable"
      else if state.active
      then []
      else lit "firewalld is not running")

unfoldable pub enabled_check : FirewallState → ReadinessCheck
enabled_check state =
    let unknown = not (observation_available state.service_enablement) in
    check (lit "firewalld enabled at boot")
      (if unknown then warn else if state.enabled then pass else warn)
      (if unknown
        then lit "service enablement query unavailable"
        else if state.enabled
        then []
        else lit "not enabled")

unfoldable pub panic_check : FirewallState → ReadinessCheck
panic_check state =
    let label = lit "firewalld panic mode" in
    if not (observation_available state.panic_state)
    then unavailable_check label (lit "panic-mode query unavailable")
    else check label (if state.panic then fail else pass)
        (if state.panic then lit "panic mode is active" else lit "off")

unfoldable pub config_check : FirewallState → ReadinessCheck
config_check state =
    let label = lit "permanent configuration valid" in
    if not (observation_available state.permanent_config)
    then unavailable_check label (lit "firewall-cmd --check-config unavailable")
    else check label (if state.permanent_config_valid then pass else fail) (
        if state.permanent_config_valid then [] else lit "firewall-cmd --check-config did not pass")

unfoldable pub default_zone_check : FirewallState → ReadinessCheck
default_zone_check state =
    let label = lit "default zone set" in
    if not (observation_available state.default_zone_status)
    then unavailable_check label (lit "default-zone query unavailable")
    else check label (if is_empty state.default_zone then fail else pass) state.default_zone
