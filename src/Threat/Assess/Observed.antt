-- ===== src/Threat/Assess/Observed.antt =====
-- Missing evidence is always reported.
use fedora_firewall_control.Common.{◌≡◌, ◌≢◌, arith, List, [], ◌∷◌, ◌++◌, All, true}
use fedora_firewall_control.Text.{lit}
use fedora_firewall_control.Text.Laws.{text_eq_iff}
use fedora_firewall_control.Firewall.{FirewallState, ObservationStatus, JournalQueryStatus}
use fedora_firewall_control.Ports.{ServiceDatabase}
use fedora_firewall_control.Threat.{ThreatFinding, coverage_gap, no_alert}
use fedora_firewall_control.Threat.Coverage.{
  service_findings, active_zones_findings, runtime_zones_findings, permanent_zones_findings,
  policies_findings, panic_findings, time_findings, journald_findings,
}
use fedora_firewall_control.Threat.Telemetry.{denial_finding, listener_findings}
use fedora_firewall_control.Threat.Assess.{evidence_findings, assess_threat_evidence}

All-append-left :
    (P : ThreatFinding → Type 0) (xs ys : List ThreatFinding)
    → All P (xs ++ ys)
    → All P xs × All P ys
All-append-left P [] ys h = (tt, h)
All-append-left P (x ∷ xs) ys (p, h) = let (l, r) = All-append-left P xs ys h in ((p, l), r)

abbrev pub IsNoGap : ThreatFinding → Type 0
IsNoGap f = f.kind ≢ coverage_gap

-- Every source of the review was observed.
pub record IsObserved (s : FirewallState) : Type 0 where
  pub installed : s.installed ≡ true
  pub active : s.active ≡ true
  pub active_zones : s.active_zones_status ≡ ObservationStatus.available
  pub runtime_zones : s.runtime_zones_status ≡ ObservationStatus.available
  pub permanent_zones : s.permanent_zones_status ≡ ObservationStatus.available
  pub policies : s.active_policies_status ≡ ObservationStatus.available
  pub no_policy : s.active_policies ≡ []
  pub panic : s.panic_state ≡ ObservationStatus.available
  pub kernel_journal : s.security_signals.kernel_journal_available ≡ true
  pub complete_journal : s.security_signals.kernel_journal_status ≢ JournalQueryStatus.partial
  pub sockets : s.sockets.available ≡ true
  pub time : s.evidence_quality.time_synchronized ≡ true
  pub journald : s.evidence_quality.journald_service_available ≡ true

no_gap_facts :
    (s : FirewallState)
    → All IsNoGap (service_findings s)
    → All IsNoGap (active_zones_findings s)
    → All IsNoGap (runtime_zones_findings s)
    → All IsNoGap (permanent_zones_findings s)
    → All IsNoGap (policies_findings s)
    → All IsNoGap (panic_findings s)
    → IsNoGap (denial_finding s)
    → All IsNoGap (listener_findings s)
    → All IsNoGap (time_findings s)
    → All IsNoGap (journald_findings s)
    → IsObserved s
unfolding service_findings active_zones_findings runtime_zones_findings permanent_zones_findings
    policies_findings panic_findings denial_finding listener_findings time_findings
    journald_findings
no_gap_facts s a b c d e f g h i j = ground arith

evidence-IsObserved : (s : FirewallState) → All IsNoGap (evidence_findings s) → IsObserved s
unfolding evidence_findings
evidence-IsObserved s found =
    let (r9, j) = All-append-left IsNoGap _ (journald_findings s) found in
    let (r8, i) = All-append-left IsNoGap _ (time_findings s) r9 in
    let (r7, h) = All-append-left IsNoGap _ (listener_findings s) r8 in
    let (r6, g) = All-append-left IsNoGap _ (denial_finding s ∷ []) r7 in
    let (r5, f) = All-append-left IsNoGap _ (panic_findings s) r6 in
    let (r4, e) = All-append-left IsNoGap _ (policies_findings s) r5 in
    let (r3, d) = All-append-left IsNoGap _ (permanent_zones_findings s) r4 in
    let (r2, c) = All-append-left IsNoGap _ (runtime_zones_findings s) r3 in
    let (a, b) = All-append-left IsNoGap (service_findings s) (active_zones_findings s) r2 in
    no_gap_facts s a b c d e f g.0 h i j

-- A threat review that reports no coverage gap rests on complete evidence: firewalld installed and
-- running; the active, runtime and permanent zones, the policies and the panic mode observed, with
-- no active policy; the kernel journal read in full; the listeners read; the host's time
-- synchronized and journald running. What is missing of these is always reported as a gap.
pub assess_threat_evidence-IsObserved :
    (service_database : ServiceDatabase) (s : FirewallState)
    → All IsNoGap (assess_threat_evidence service_database s).findings
    → IsObserved s
unfolding assess_threat_evidence
assess_threat_evidence-IsObserved service_database s found =
    evidence-IsObserved s (All-append-left IsNoGap (evidence_findings s) _ found).0

-- A quiet denial view (`no alert`) is reported only where the kernel journal was read, held no
-- denial, and firewalld was seen to log denials.
pub denial_finding-no_alert :
    (s : FirewallState)
    → (denial_finding s).kind ≡ no_alert
    → (s.security_signals.kernel_journal_available ≡ true)
      × (s.security_signals.kernel_drop_or_reject_events ≡ 0)
      × (s.denied_logging_status ≡ ObservationStatus.available)
      × (s.log_denied ≢ lit "off")
unfolding denial_finding
denial_finding-no_alert s h = ground (arith, text_eq_iff s.log_denied (lit "off"))
