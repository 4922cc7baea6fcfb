-- ===== src/Command/Run/Returns.antt =====
-- When a run of `ProcessCommandRunner::run_with_input` of src/core/command_runner.cpp returns.
use fedora_firewall_control.Command.{ℤ, pos, negsuc}
use fedora_firewall_control.Command.Communicate.{Loop}
use fedora_firewall_control.Command.Rounds.{millisecond, communicate_with_process}
use fedora_firewall_control.Command.Rounds.Invariant.{communicate_with_process-IsSettled}
use fedora_firewall_control.Command.Rounds.Deadline.{
  IsTimely, last_start, communicate_with_process-returns,
}
use fedora_firewall_control.Command.Run.{
  wait_for, safety_duration, settings, parent, run_with_input, System,
}
use fedora_firewall_control.Common.{
  ℕ, zero, suc, ◌+◌, ◌*◌, ◌≤◌, ◌<◌, ◌≢◌, ◌≡◌, ◌⊎◌, inl, inr, false, some, none, List, [], ◌∷◌,
  arith, Option-cases,
}
use fedora_firewall_control.Text.{Text}

safety_duration_pos : (t : ℤ) → 0 < safety_duration t
unfolding safety_duration
safety_duration_pos (pos zero) = omega arith
safety_duration_pos (pos (suc n)) = omega arith
safety_duration_pos (negsuc n) = omega arith

-- A run that goes on: its loop has returned without a kill of the process group, as the child has
-- closed both of its outputs, and `waitpid` has not answered.
pub record IsWaiting (timeout grace : ℤ) (standard_input : Text) (sys : System) : Type 0 where
  pub loop : Loop
  pub looped :
      communicate_with_process
        (settings (safety_duration timeout) (safety_duration grace) standard_input sys)
        sys.fcntl_error
        sys.stop_at
        sys.answers
      ≡ some loop
  pub out_closed : loop.out_open ≡ false
  pub err_closed : loop.err_open ≡ false
  pub spared : loop.kills ≡ 0
  pub unanswered : wait_for sys.waits ≡ none

-- A process group that was killed is reaped.
abbrev pub IsReaped : ℤ → ℤ → Text → System → Type 0
IsReaped timeout grace standard_input sys =
    (s : Loop)
    → communicate_with_process
        (settings (safety_duration timeout) (safety_duration grace) standard_input sys)
        sys.fcntl_error sys.stop_at sys.answers
      ≡ some s
    → s.kills ≡ 1
    → wait_for sys.waits ≢ none

module _ (timeout grace : ℤ) (standard_input : Text) (sys : System) (period slack : ℕ) where
  parent-returns :
      sys.stop_at ≤ sys.forked_at + slack
      → IsTimely period slack sys.forked_at sys.answers
      → sys.forked_at
          + safety_duration timeout * millisecond
          + period
          + slack
          + safety_duration grace * millisecond
        ≤ last_start sys.forked_at sys.answers
      → IsReaped timeout grace standard_input sys
      → (parent (safety_duration timeout) (safety_duration grace) standard_input sys ≢ none)
        ⊎ IsWaiting timeout grace standard_input sys
  unfolding parent settings
  parent-returns a t l reaped =
      let c = settings (safety_duration timeout) (safety_duration grace) standard_input sys in
      let (s, found) =
        communicate_with_process-returns c sys.fcntl_error period slack sys.forked_at sys.stop_at
          sys.answers (omega (arith, safety_duration_pos timeout)) a t l in
      let settled =
        communicate_with_process-IsSettled c sys.fcntl_error sys.stop_at sys.answers s found in
      elim (Option-cases (wait_for sys.waits)) [
        | inr (w, answered) ↦ inl (ground (arith, found, answered))
        | inl unanswered ↦ inr (record {
          loop = s;
          looped = found;
          out_closed = settled.out_closed;
          err_closed = settled.err_closed;
          spared = ground (arith, settled, reaped s found);
          unanswered = unanswered;
        })
      ]

-- A run returns, or it waits without limit for a program that it has not killed and that has
-- closed both of its outputs. Let the system answer as `IsTimely` says from the fork on, with a
-- round that starts long enough after the limit of the run, and let `waitpid` answer where the
-- process group was killed.
pub run_with_input-returns :
    (timeout grace : ℤ) (arguments : List Text) (standard_input : Text) (sys : System)
    (period slack : ℕ)
    → sys.stop_at ≤ sys.forked_at + slack
    → IsTimely period slack sys.forked_at sys.answers
    → sys.forked_at
        + safety_duration timeout * millisecond
        + period
        + slack
        + safety_duration grace * millisecond
      ≤ last_start sys.forked_at sys.answers
    → IsReaped timeout grace standard_input sys
    → (run_with_input timeout grace arguments standard_input sys ≢ none)
      ⊎ IsWaiting timeout grace standard_input sys
unfolding run_with_input
run_with_input-returns timeout grace [] standard_input sys period slack a t l reaped =
    inl (ground arith)
run_with_input-returns timeout grace (argument ∷ more) standard_input sys period slack a t l
      reaped =
    elim (parent-returns timeout grace standard_input sys period slack a t l reaped) [
      | inl returns ↦ inl (ground (arith, returns))
      | inr waits ↦ inr waits
    ]
