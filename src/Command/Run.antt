-- ===== src/Command/Run.antt =====
-- `ProcessCommandRunner` of src/core/command_runner.cpp: the parent's path from the pipes to the
-- result, and the child's path up to `execvp`. The system's answers are arguments. Closing the
-- pipes' other ends and setting the process group in the parent change no result, and are left out.
pub mod Outcome
pub mod Messages
pub mod Returns
use fedora_firewall_control.Common.{
  ℕ, suc, ◌+◌, ◌*◌, Bool, true, Option, none, some, List, [], ◌∷◌, ◌++◌, if◌then◌else◌, ◌>>=◌,
}
use fedora_firewall_control.Text.{Text, lit}
use fedora_firewall_control.Text.Decimal.{to_string}
use fedora_firewall_control.Command.{ℤ, pos, negsuc, CommandResult}
use fedora_firewall_control.Command.Communicate.{
  CommunicationResult, Round, Settings, append_error, has_failed,
}
use fedora_firewall_control.Command.Rounds.{communicate_with_process, millisecond}

-- What `waitpid` answers: a call that was interrupted, an error, an exit code, or another end.
pub data Waited : Type 0 where
  wait_interrupted : Waited
  wait_failed : Text → Waited
  exited : ℕ → Waited
  signaled : Waited

-- The call is repeated while it is interrupted.
unfoldable pub wait_for : List Waited → Option Waited
wait_for [] = none
wait_for (wait_interrupted ∷ rest) = wait_for rest
wait_for (w ∷ rest) = some w

unfoldable pub safety_duration : ℤ → ℕ
safety_duration (pos (suc n)) = suc n
safety_duration _ = 1

-- A flag of the result appends its line.
unfoldable pub append_if : Bool → Text → Text → Text
unfolding append_error
append_if flag detail target = if flag then append_error target detail else target

unfoldable pub after_wait : Waited → CommunicationResult → CommunicationResult
unfolding append_error
after_wait (wait_failed why) r = record r {
  standard_error = append_error r.standard_error (lit "could not wait for command: " ++ why);
  output_failed = true;
}
after_wait _ r = r

unfoldable pub standard_error_of : ℕ → CommunicationResult → Text
unfolding append_if to_string
standard_error_of timeout r =
    append_if r.input_failed (lit "command standard-input write failed: " ++ r.input_error) (
      append_if r.input_rejected (lit "command did not accept all standard input") (
        append_if r.truncated (lit "command output exceeded 1 MiB safety limit") (
          append_if r.timed_out
            (lit "command exceeded " ++ (to_string timeout ++ lit "-millisecond safety limit"))
            r.standard_error)))

abbrev exit_status : Waited → ℤ
exit_status (exited code) = pos code
exit_status _ = negsuc 0

unfoldable pub result_of : ℕ → Waited → CommunicationResult → CommandResult
unfolding after_wait standard_error_of has_failed
result_of timeout w r =
    let s = after_wait w r in
    record {
      exit_code = if has_failed s then negsuc 0 else exit_status w;
      stdout_text = s.standard_output;
      stderr_text = standard_error_of timeout s;
    }

-- The answers to the parent: `pipe` and `fork` fail with an error; the clock after the fork.
pub record System : Type 0 where
  pub pipe_error : Option Text
  pub fork_error : Option Text
  pub forked_at : ℕ
  pub fcntl_error : Option Text
  pub stop_at : ℕ
  pub answers : List Round
  pub waits : List Waited

abbrev refused : Text → CommandResult
refused why = record { exit_code = negsuc 0; stdout_text = []; stderr_text = why }

unfoldable pub settings : ℕ → ℕ → Text → System → Settings
settings timeout grace standard_input sys = record {
  deadline = sys.forked_at + timeout * millisecond;
  pipe_drain_grace = grace * millisecond;
  standard_input = standard_input;
}

unfoldable pub parent : ℕ → ℕ → Text → System → Option CommandResult
unfolding communicate_with_process wait_for result_of settings
parent timeout grace standard_input sys = do
  s ←
      communicate_with_process (settings timeout grace standard_input sys) sys.fcntl_error
        sys.stop_at sys.answers
  w ← wait_for sys.waits
  some (result_of timeout w s.result)

unfoldable pub run_with_input : ℤ → ℤ → List Text → Text → System → Option CommandResult
unfolding parent safety_duration
run_with_input timeout grace [] standard_input sys = some (refused (lit "empty command"))
run_with_input timeout grace (argument ∷ more) standard_input sys = elim sys.pipe_error [
  | some why ↦ some (refused why)
  | none ↦ elim sys.fork_error [
    | some why ↦ some (refused why)
    | none ↦ parent (safety_duration timeout) (safety_duration grace) standard_input sys
  ]
]

unfoldable pub run : ℤ → ℤ → List Text → System → Option CommandResult
unfolding run_with_input
run timeout grace arguments sys = run_with_input timeout grace arguments [] sys
