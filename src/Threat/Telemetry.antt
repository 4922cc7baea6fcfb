-- ===== src/Threat/Telemetry.antt =====
-- `assess_threat_evidence`: the denial telemetry, the listeners and the firewalld journal.
use fedora_firewall_control.Common.{
  ◌-◌, Bool, true, false, not, ◌&&◌, List, [], ◌∷◌, ◌++◌, ltb, if◌then◌else◌,
}
use fedora_firewall_control.Text.{lit, text_eq}
use fedora_firewall_control.Text.Decimal.{to_string as decimal}
use fedora_firewall_control.Firewall.{
  FirewallState, JournalQueryStatus, SecuritySignalsState, observation_available,
}
use fedora_firewall_control.Sockets.Summary.{summarize_listener_exposure, ListenerExposureSummary}
use fedora_firewall_control.Threat.{
  finding, ThreatFindingKind, ThreatFinding, candidate_alert, coverage_gap, no_alert,
}

abbrev is_partial : JournalQueryStatus → Bool
is_partial JournalQueryStatus.partial = true
is_partial JournalQueryStatus.available = false
is_partial JournalQueryStatus.unavailable = false

denial_alert : SecuritySignalsState → ThreatFinding
denial_alert signals =
    finding candidate_alert (lit "Denied-packet activity observed")
      (decimal signals.kernel_drop_or_reject_events
        ++ lit " retained event(s); "
        ++ decimal signals.kernel_denial_unique_sources
        ++ lit " distinct source value(s); "
        ++ decimal signals.kernel_denial_unique_destination_ports
        ++ lit " destination port value(s).")
      (lit
        "Blocked scans, multicast discovery, return traffic, and local misconfiguration can all be false positives for hostile activity.")
      (lit
        "Correlate timestamps, source/destination tuples, owning process, and packet capture before calling this a true positive.")

unfoldable pub denial_finding : FirewallState → ThreatFinding
unfolding denial_alert text_eq
denial_finding state =
    if is_partial state.security_signals.kernel_journal_status
    then finding coverage_gap (lit "Kernel denial telemetry truncated")
        (lit "At least "
          ++ decimal state.security_signals.kernel_drop_or_reject_events
          ++ lit " retained event(s) reached the bounded journal query limit.")
        (lit
          "Additional events may be absent from this view, so an apparent count or source mix is not complete.")
        (lit
          "Collect a narrower time window or export retained journal evidence before drawing conclusions.")
    else if not state.security_signals.kernel_journal_available
    then finding coverage_gap (lit "Kernel denial telemetry unavailable")
        (lit "The journal query did not return a usable retained view.")
        (lit "A quiet dashboard can be a false negative when this telemetry source is unavailable.")
        (lit "Restore journal access, then compare firewall logs with host and network telemetry.")
    else if ltb 0 state.security_signals.kernel_drop_or_reject_events
    then denial_alert state.security_signals
    else if not (observation_available state.denied_logging_status)
    then finding coverage_gap (lit "Denied-packet logging state unavailable")
        (lit "The firewall did not return a usable LogDenied setting.")
        (lit
          "No retained deny events cannot be interpreted without knowing whether the firewall was configured to log them.")
        (lit "Restore firewall query access and collect a new denial-telemetry window.")
    else if text_eq state.log_denied (lit "off")
    then finding coverage_gap (lit "Denied-packet logging is off")
        (lit
          "The firewall reports LogDenied=off, so denied-traffic counts are incomplete by design.")
        (lit
          "No denied events is not a true negative while packet-denial logging is disabled; separately logged events remain candidates to investigate.")
        (lit
          "Use a reviewed, rate-limited firewalld log, NFLOG, or audit rule for the traffic under investigation.")
    else finding no_alert (lit "No retained kernel deny/reject events")
        (lit "No matching events were found in the bounded 24-hour journal view.")
        (lit "Normal background noise, logging gaps, and evasion can all produce no alert.")
        (lit
          "Do not classify this as a true negative without independent host, network, and time-window evidence.")

listener_exposure : ListenerExposureSummary → List ThreatFinding
listener_exposure found =
    finding ThreatFindingKind.exposure (lit "TCP/UDP non-multicast local listeners")
      (decimal found.logical_network_services
        ++ lit " logical TCP/UDP protocol/port service(s) across "
        ++ decimal found.network_reachable_bindings
        ++ lit " non-multicast binding(s); "
        ++ decimal found.process_attributed_network_bindings
        ++ lit " binding(s) have a locally reported process name.")
      (lit
        "A listening socket is not evidence of compromise; it may be an expected service, discovery responder, or VPN component.")
      (lit
        "Verify owner, intended interface, firewall reachability, authentication, and whether the service is needed on this network.")
    ∷ (if ltb found.process_attributed_network_bindings found.network_reachable_bindings
        then finding coverage_gap (lit "Listener process attribution is incomplete")
            (decimal (found.network_reachable_bindings - found.process_attributed_network_bindings)
              ++ lit
                  " non-multicast network binding(s) had no process name in the local `ss` view.")
            (lit
              "Missing process metadata can prevent benign attribution or hide a suspicious owner, creating false-positive and false-negative risk.")
            (lit
              "Re-run with the necessary local privileges and compare with service-manager and process telemetry.")
          ∷ []
        else [])

unfoldable pub listener_findings : FirewallState → List ThreatFinding
unfolding listener_exposure summarize_listener_exposure
listener_findings state =
    let found = summarize_listener_exposure state.sockets in
    if not state.sockets.available
    then finding coverage_gap (lit "Listener inventory unavailable")
        (lit "The local socket query failed or was unavailable.")
        (lit
          "A missing inventory can hide a network-reachable service and create a false-negative exposure assessment.")
        (lit
          "Restore socket visibility and validate listeners with their owning process and active-zone rules.")
      ∷ []
    else if ltb 0 found.logical_network_services
    then listener_exposure found
    else finding no_alert (lit "No TCP/UDP non-multicast listeners observed")
        (lit "The current socket snapshot found no TCP/UDP listener beyond loopback or multicast.")
        (lit
          "This is a point-in-time observation, not proof that no service can appear later or that outbound abuse is absent.")
        (lit
          "Refresh after network changes and combine with process and egress monitoring when needed.")
      ∷ []

unfoldable pub journal_findings : FirewallState → List ThreatFinding
journal_findings state =
    if is_partial state.security_signals.firewalld_journal_status
    then finding coverage_gap (lit "firewalld journal telemetry truncated")
        (lit "At least "
          ++ decimal state.security_signals.firewalld_service_events
          ++ lit " service event(s) reached the bounded journal query limit.")
        (lit "The returned event count is a lower bound and is not a complete activity history.")
        (lit "Inspect a narrower time window when investigating a candidate finding.")
      ∷ []
    else if state.security_signals.firewalld_journal_available
        && ltb 0 state.security_signals.firewalld_service_events
    then finding no_alert (lit "Routine firewalld journal activity retained")
        (decimal state.security_signals.firewalld_service_events
          ++ lit
              " service journal event(s) in the bounded view; this count alone is not a threat signal.")
        (lit
          "Starts, reloads, package updates, and network changes commonly produce these entries.")
        (lit
          "Use the timestamp and event content only when investigating a separate candidate finding.")
      ∷ []
    else []
