-- ===== src/Readiness/Listeners.antt =====
-- The checks of the listener inventory and of the kernel journal.
use fedora_firewall_control.Common.{ℕ, not, ◌++◌, ◌==◌, if◌then◌else◌}
use fedora_firewall_control.Text.{Text, lit}
use fedora_firewall_control.Text.Decimal.{to_string as decimal}
use fedora_firewall_control.Mode.{is_hostile}
use fedora_firewall_control.Firewall.{FirewallState, JournalQueryStatus}
use fedora_firewall_control.Sockets.Summary.{summarize_listener_exposure}
use fedora_firewall_control.Readiness.{check, ReadinessCheck, pass, warn, fail, info}

unfoldable pub listener_check : FirewallState → ReadinessCheck
unfolding summarize_listener_exposure
listener_check state =
    let exposure = summarize_listener_exposure state.sockets in
    let unknown = not state.sockets.available in
    let quiet = exposure.logical_network_services == 0 in
    check (lit "TCP/UDP non-multicast listener exposure")
      (if unknown
        then warn
        else if quiet
        then pass
        else if is_hostile state.operating_mode
        then fail
        else warn)
      (if unknown
        then lit "socket scan unavailable"
        else if quiet
        then lit "none observed; SCTP, DCCP, raw, and protocol sockets are not collected"
        else decimal exposure.logical_network_services
          ++ lit " logical service(s) across "
          ++ decimal exposure.network_reachable_bindings
          ++ lit " non-multicast binding(s)")

unfoldable pub multicast_check : FirewallState → ReadinessCheck
unfolding summarize_listener_exposure
multicast_check state =
    let exposure = summarize_listener_exposure state.sockets in
    let unknown = not state.sockets.available in
    let quiet = exposure.multicast_only_bindings == 0 in
    check (lit "multicast listener exposure")
      (if unknown
        then warn
        else if quiet
        then info
        else if is_hostile state.operating_mode
        then warn
        else info)
      (if unknown
        then lit "socket scan unavailable"
        else if quiet
        then lit "none observed in the TCP/UDP listener query"
        else decimal exposure.multicast_only_bindings
          ++ lit " binding(s); local-segment discovery traffic remains possible")

kernel_unavailable_detail : JournalQueryStatus → ℕ → Text
kernel_unavailable_detail JournalQueryStatus.partial events =
    lit "at least " ++ decimal events ++ lit " event(s); bounded journal view may be truncated"
kernel_unavailable_detail JournalQueryStatus.available events = lit "journal unavailable"
kernel_unavailable_detail JournalQueryStatus.unavailable events = lit "journal unavailable"

unfoldable pub kernel_check : FirewallState → ReadinessCheck
unfolding kernel_unavailable_detail
kernel_check state =
    let signals = state.security_signals in
    let unknown = not signals.kernel_journal_available in
    let quiet = signals.kernel_drop_or_reject_events == 0 in
    check (lit "kernel drop/reject log signals")
      (if unknown then warn else if quiet then pass else warn)
      (if unknown
        then kernel_unavailable_detail signals.kernel_journal_status
            signals.kernel_drop_or_reject_events
        else if quiet
        then lit "none in the last 24h"
        else decimal signals.kernel_drop_or_reject_events
          ++ lit " event(s); review, do not attribute")
