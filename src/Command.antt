-- ===== src/Command.antt =====
-- include/ffc/command_runner.hpp: the result of an external command and the runner's interface.
-- A collector asks each command line once, so the runner is a function of the arguments; what the
-- tools answer is an argument of every definition that runs them.
pub mod Communicate
pub mod Rounds
pub mod Run
pub mod Child
use fedora_firewall_control.Common.{ℕ, Bool, false, List, ◌==◌, if◌then◌else◌, is_empty}
use fedora_firewall_control.Text.{Text}

-- An `int`; `negsuc n` is -(n + 1).
pub data ℤ : Type 0 where
  pos : ℕ → ℤ
  negsuc : ℕ → ℤ

pub record CommandResult : Type 0 where
  pub exit_code : ℤ
  pub stdout_text : Text
  pub stderr_text : Text

abbrev pub is_code : ℕ → ℤ → Bool
is_code n (pos m) = m == n
is_code n (negsuc m) = false

abbrev pub success : CommandResult → Bool
success r = is_code 0 r.exit_code

abbrev pub CommandRunner : Type 0
CommandRunner = List Text → CommandResult

-- `stderr_text.empty() ? fallback : stderr_text`
abbrev pub error_or : CommandResult → Text → Text
error_or r fallback = if is_empty r.stderr_text then fallback else r.stderr_text
