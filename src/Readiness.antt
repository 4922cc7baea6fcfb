-- ===== src/Readiness.antt =====
-- src/firewall/readiness.cpp: `assess_readiness`, one definition for each check, in the order in
-- which the checks are pushed; and `readiness_exit_code` of src/app/command_executor.cpp.
pub mod Drift
pub mod Service
pub mod Transport
pub mod Listeners
pub mod Policy
pub mod Assess
pub mod Sound
pub mod Modes
use fedora_firewall_control.Text.{Text, lit}

pub data CheckLevel : Type 0 where
  pass warn fail info : CheckLevel

pub record ReadinessCheck : Type 0 where
  pub label : Text
  pub level : CheckLevel
  pub detail : Text

abbrev pub check : Text → CheckLevel → Text → ReadinessCheck
check label level detail = record { label = label; level = level; detail = detail }

abbrev pub unavailable_check : Text → Text → ReadinessCheck
unavailable_check label detail = check label warn detail

unfoldable pub to_string : CheckLevel → Text
to_string pass = lit "PASS"
to_string warn = lit "WARN"
to_string fail = lit "FAIL"
to_string info = lit "INFO"
