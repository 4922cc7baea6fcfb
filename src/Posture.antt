-- ===== src/Posture.antt =====
-- src/firewall/posture_inspector.cpp and src/security/evidence_quality.cpp: the composition of one
-- snapshot from the collectors.
pub mod Composition
use fedora_firewall_control.Common.{
  Bool, true, false, not, ◌&&◌, ◌||◌, List, [], ◌∷◌, ◌++◌, if◌then◌else◌, is_empty,
}
use fedora_firewall_control.Text.{Text, lit, text_eq, trim_copy}
use fedora_firewall_control.Command.{success, CommandRunner, error_or, CommandResult}
use fedora_firewall_control.Mode.{OperatingModeLoadResult, OperatingModeLoadStatus}
use fedora_firewall_control.Firewall.{
  FirewallState, EvidenceQualityState, JournalQueryStatus, SecuritySignalsState,
  NetworkManagerState, VpnState, SocketState, no_evidence_quality,
}
use fedora_firewall_control.Backend.{add_error, PostureCollectionDepth, landing, complete}

unfoldable pub inspect_time : CommandResult → EvidenceQualityState
unfolding trim_copy text_eq
inspect_time time_sync =
    if success time_sync
    then record no_evidence_quality {
      time_sync_status_available = true;
      time_synchronized = text_eq (trim_copy time_sync.stdout_text) (lit "yes");
    }
    else record no_evidence_quality {
      diagnostic = error_or time_sync (lit "time synchronization status unavailable");
    }

unfoldable pub inspect_journald : CommandResult → EvidenceQualityState → EvidenceQualityState
unfolding trim_copy text_eq
inspect_journald journald state =
    let active = success journald && text_eq (trim_copy journald.stdout_text) (lit "active") in
    record state {
      journald_service_available = active;
      diagnostic =
          if not active && is_empty state.diagnostic
          then error_or journald (lit "systemd-journald is not active")
          else state.diagnostic;
    }

-- `EvidenceQualityInspector::inspect`
unfoldable pub inspect_evidence_quality : CommandRunner → EvidenceQualityState
unfolding inspect_time inspect_journald
inspect_evidence_quality run =
    inspect_journald (run (lit "systemctl" ∷ lit "is-active" ∷ lit "systemd-journald.service" ∷ []))
      (inspect_time (
        run
          (lit "timedatectl" ∷ lit "show" ∷ lit "--property=NTPSynchronized" ∷ lit "--value" ∷ [])))

-- What the other collectors returned.
pub record Collected : Type 0 where
  pub operating_mode : OperatingModeLoadResult
  pub vpn : VpnState
  pub sockets : SocketState
  pub security_signals : SecuritySignalsState
  pub network_manager : NetworkManagerState
  pub evidence_quality : EvidenceQualityState

abbrev is_available : JournalQueryStatus → Bool
is_available JournalQueryStatus.available = true
is_available JournalQueryStatus.partial = false
is_available JournalQueryStatus.unavailable = false

-- Journal signals are partial evidence while journald is not confirmed.
unfoldable pub downgrade : SecuritySignalsState → SecuritySignalsState
downgrade s =
    let kernel = is_available s.kernel_journal_status in
    let service = is_available s.firewalld_journal_status in
    record s {
      kernel_journal_status =
          if kernel then JournalQueryStatus.partial else s.kernel_journal_status;
      kernel_journal_available = if kernel then false else s.kernel_journal_available;
      firewalld_journal_status =
          if service then JournalQueryStatus.partial else s.firewalld_journal_status;
      firewalld_journal_available = if service then false else s.firewalld_journal_available;
    }

-- The fields of the snapshot that the collector fills in.
unfoldable pub composed : FirewallState → Collected → FirewallState
composed state c = record state {
  operating_mode = c.operating_mode.mode;
  operating_mode_status = c.operating_mode.status;
  operating_mode_diagnostic = c.operating_mode.diagnostic;
  vpn = c.vpn;
  sockets = c.sockets;
  security_signals = c.security_signals;
  network_manager = c.network_manager;
}

-- The block of the complete depth.
unfoldable pub with_quality : PostureCollectionDepth → Collected → FirewallState → FirewallState
unfolding downgrade
with_quality landing c state = state
with_quality complete c state =
    if c.evidence_quality.journald_service_available
    then record state { evidence_quality = c.evidence_quality }
    else add_error
        (lit
          "journald service availability is not confirmed; journal signals are treated as partial evidence")
        (record state {
          evidence_quality = c.evidence_quality;
          security_signals = downgrade state.security_signals;
        })

abbrev when : Bool → Text → List Text
when b why = if b then why ∷ [] else []

abbrev is_invalid : OperatingModeLoadStatus → Bool
is_invalid OperatingModeLoadStatus.invalid = true
is_invalid OperatingModeLoadStatus.available = false
is_invalid OperatingModeLoadStatus.defaulted = false

abbrev is_complete : PostureCollectionDepth → Bool
is_complete complete = true
is_complete landing = false

-- The cross-collector notices, in order.
unfoldable pub notices : PostureCollectionDepth → FirewallState → List Text
notices depth state =
    when (not state.network_manager.available)
      (lit "NetworkManager device inventory unavailable: " ++ state.network_manager.diagnostic)
    ++ when (not state.vpn.interface_scan_available)
        (lit "VPN tunnel scan unavailable: " ++ state.vpn.diagnostic)
    ++ when (not state.sockets.available)
        (lit "listener scan unavailable: " ++ state.sockets.diagnostic)
    ++ when (is_invalid state.operating_mode_status) state.operating_mode_diagnostic
    ++ when
        (not state.security_signals.kernel_journal_available
          && not state.security_signals.firewalld_journal_available)
        (lit "security journal signals unavailable: " ++ state.security_signals.diagnostic)
    ++ when
        (is_complete depth
          && (not state.evidence_quality.time_sync_status_available
              || not state.evidence_quality.journald_service_available))
        (lit "evidence-quality check incomplete: " ++ state.evidence_quality.diagnostic)

-- `DefensivePostureCollector::inspect` over the backend's state.
unfoldable pub collect : PostureCollectionDepth → FirewallState → Collected → FirewallState
unfolding composed with_quality notices
collect depth backend c =
    let state = with_quality depth c (composed backend c) in
    record state { errors = state.errors ++ notices depth state }
