-- ===== src/CommandLine/Exit/Codes.antt =====
-- The exit codes of a run.
use fedora_firewall_control.Common.{◌≡◌, arith, ◌≢◌, ◌⊎◌}
use fedora_firewall_control.CommandLine.{CommandLine, readiness}
use fedora_firewall_control.CommandLine.Exit.{Answers, execute}

-- A run of an action other than `readiness` succeeds with 0 or fails with 2; the code 1 of a
-- warning is left to `--readiness`.
pub execute-code :
    (c : CommandLine) (a : Answers) → c.action ≢ readiness → (execute c a ≡ 0) ⊎ (execute c a ≡ 2)
unfolding execute
execute-code c a h = ground arith
