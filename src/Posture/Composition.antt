-- ===== src/Posture/Composition.antt =====
-- What a collected snapshot promises.
use fedora_firewall_control.Common.{
  ◌≡◌, refl, ◌≢◌, arith, List, [], ◌∷◌, ◌++◌, false, true, ◌||◌, Bool-cases, inl, inr,
}
use fedora_firewall_control.Text.{Text, lit}
use fedora_firewall_control.Firewall.{FirewallState, JournalQueryStatus, SecuritySignalsState}
use fedora_firewall_control.Mode.{OperatingModeLoadStatus}
use fedora_firewall_control.Backend.{PostureCollectionDepth, complete, landing}
use fedora_firewall_control.Posture.{Collected, collect, composed, with_quality, downgrade, notices}

abbrev not_confirmed : Text
not_confirmed =
    lit
      "journald service availability is not confirmed; journal signals are treated as partial evidence"

append-ne-nil : (xs ys : List Text) → xs ++ ys ≡ [] → (xs ≡ []) × (ys ≡ [])
append-ne-nil [] ys h = (refl, h)
append-ne-nil (x ∷ xs) ys h = ground arith

downgrade-status :
    (s : SecuritySignalsState)
    → ((downgrade s).kernel_journal_status ≢ JournalQueryStatus.available)
      × ((downgrade s).firewalld_journal_status ≢ JournalQueryStatus.available)
unfolding downgrade
downgrade-status s = ground arith

snoc-ne-nil : (xs ys : List Text) (x : Text) → (xs ++ x ∷ []) ++ ys ≢ []
snoc-ne-nil [] ys x = λ e. ground arith
snoc-ne-nil (y ∷ xs) ys x = λ e. ground arith

downgraded : FirewallState → Collected → FirewallState
downgraded backend c = with_quality complete c (composed backend c)

collect-fields :
    (backend : FirewallState) (c : Collected)
    → c.evidence_quality.journald_service_available ≡ false
    → ((collect complete backend c).security_signals ≡ downgrade c.security_signals)
      × ((downgraded backend c).errors ≡ backend.errors ++ (not_confirmed ∷ []))
unfolding collect composed with_quality downgraded
collect-fields backend c h = ground arith

-- A complete collection in which journald is not confirmed reports no journal as available and
-- reports an error, whatever the journal queries answered.
pub collect-downgrade :
    (backend : FirewallState) (c : Collected)
    → c.evidence_quality.journald_service_available ≡ false
    → let s = collect complete backend c in
      (s.security_signals.kernel_journal_status ≢ JournalQueryStatus.available)
      × (s.security_signals.firewalld_journal_status ≢ JournalQueryStatus.available)
      × (s.errors ≢ [])
unfolding collect downgraded
collect-downgrade backend c h =
    let (signals, errors) = collect-fields backend c h in
    ground (
      arith,
      signals,
      errors,
      downgrade-status c.security_signals,
      snoc-ne-nil backend.errors (notices complete (downgraded backend c)) not_confirmed,
    )

-- What a snapshot without errors rests on, collector by collector.
pub record IsCollected (depth : PostureCollectionDepth) (backend : FirewallState) (c : Collected)
    : Type 0 where
  pub firewall : backend.errors ≡ []
  pub devices : c.network_manager.available ≡ true
  pub tunnels : c.vpn.interface_scan_available ≡ true
  pub listeners : c.sockets.available ≡ true
  pub mode : c.operating_mode.status ≢ OperatingModeLoadStatus.invalid
  pub journals :
      (c.security_signals.kernel_journal_available
        || c.security_signals.firewalld_journal_available)
      ≡ true
  pub clock : depth ≡ complete → c.evidence_quality.time_sync_status_available ≡ true
  pub journald : depth ≡ complete → c.evidence_quality.journald_service_available ≡ true

landing-notices :
    (state : FirewallState)
    → notices landing state ≡ []
    → (state.network_manager.available ≡ true)
      × (state.vpn.interface_scan_available ≡ true)
      × (state.sockets.available ≡ true)
      × (state.operating_mode_status ≢ OperatingModeLoadStatus.invalid)
      × ((state.security_signals.kernel_journal_available
            || state.security_signals.firewalld_journal_available)
          ≡ true)
unfolding notices
landing-notices state h = ground arith

complete-notices :
    (state : FirewallState)
    → notices complete state ≡ []
    → (notices landing state ≡ [])
      × (state.evidence_quality.time_sync_status_available ≡ true)
      × (state.evidence_quality.journald_service_available ≡ true)
unfolding notices
complete-notices state h = ground arith

-- A snapshot without errors comes from a backend without errors, its device inventory, tunnel scan
-- and listener scan were available, the stored operating mode was not invalid and one of the two
-- journals answered. At the complete depth the state of the clock and journald were confirmed too.
pub collect-no_errors :
    (depth : PostureCollectionDepth) (backend : FirewallState) (c : Collected)
    → (collect depth backend c).errors ≡ []
    → IsCollected depth backend c
unfolding collect composed with_quality
collect-no_errors landing backend c h =
    let (clean, quiet) = append-ne-nil backend.errors (notices landing (composed backend c)) h in
    let all = landing-notices (composed backend c) quiet in ground arith
collect-no_errors complete backend c h =
    let state = with_quality complete c (composed backend c) in
    let (clean, quiet) = append-ne-nil state.errors (notices complete state) h in
    elim (Bool-cases c.evidence_quality.journald_service_available) [
      | inr stopped ↦ ground (
        arith,
        collect-fields backend c stopped,
        clean,
        snoc-ne-nil backend.errors [] not_confirmed,
      )
      | inl running ↦
          let (early, clock, journald) = complete-notices state quiet in
          let all = landing-notices state early in ground (arith, running)
    ]
