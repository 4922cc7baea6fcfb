-- ===== src/Command/Run/Outcome.antt =====
-- What the result of `ProcessCommandRunner::run_with_input` of src/core/command_runner.cpp says.
use fedora_firewall_control.Command.{ℤ, CommandResult, pos}
use fedora_firewall_control.Command.Communicate.{
  has_failed, CommunicationResult, Settings, Loop, out, err, captured, Channel,
}
use fedora_firewall_control.Command.Rounds.{communicate_with_process}
use fedora_firewall_control.Command.Rounds.Captured.{communicate_with_process-captured}
use fedora_firewall_control.Command.Rounds.Stream.{stream}
use fedora_firewall_control.Command.Run.{
  wait_for, safety_duration, result_of, settings, parent, run_with_input, Waited, System, exited,
}
use fedora_firewall_control.Common.{
  ℕ, ◌≡◌, refl, sym, ap, ◌∙◌, false, Option, none, some, List, [], ◌∷◌, arith, ◌>>=◌,
}
use fedora_firewall_control.Text.{Text}

-- A result with a code has no flag, and its texts are the loop's.
record HasCode (w : Waited) (r : CommunicationResult) (c : CommandResult) (code : ℕ) : Type 0 where
  clean : has_failed r ≡ false
  status : w ≡ exited code
  output : c.stdout_text ≡ r.standard_output
  diagnostics : c.stderr_text ≡ r.standard_error

result_of-code :
    (timeout code : ℕ) (w : Waited) (r : CommunicationResult)
    → (result_of timeout w r).exit_code ≡ pos code
    → HasCode w r (result_of timeout w r) code
unfolding result_of has_failed
result_of-code timeout code w r e = ground arith

module _ (timeout grace : ℕ) (standard_input : Text) (sys : System) where
  abbrev pub the_settings : Settings
  the_settings = settings timeout grace standard_input sys

  -- The parts of a run of the parent.
  pub record Parts (r : CommandResult) : Type 0 where
    pub loop : Loop
    pub waited : Waited
    pub looped :
        communicate_with_process the_settings sys.fcntl_error sys.stop_at sys.answers ≡ some loop
    pub ended : wait_for sys.waits ≡ some waited
    pub outcome : r ≡ result_of timeout waited loop.result

  Parts-from :
      (o : Option Loop) (v : Option Waited) (r : CommandResult)
      → communicate_with_process the_settings sys.fcntl_error sys.stop_at sys.answers ≡ o
      → wait_for sys.waits ≡ v
      → (o >>= λ s. v >>= λ w. some (result_of timeout w s.result)) ≡ some r
      → Parts r
  Parts-from none v r a b e = ground arith
  Parts-from (some s) none r a b e = ground arith
  Parts-from (some s) (some w) r a b e = record {
    loop = s;
    waited = w;
    looped = a;
    ended = b;
    outcome = ground arith;
  }

  pub Parts-of : (r : CommandResult) → parent timeout grace standard_input sys ≡ some r → Parts r
  unfolding parent
  Parts-of r e = Parts-from _ _ r refl refl e

  parent-code :
      (r : CommandResult) (code : ℕ)
      → parent timeout grace standard_input sys ≡ some r
      → r.exit_code ≡ pos code
      → (wait_for sys.waits ≡ some (exited code))
        × (r.stdout_text ≡ stream out sys.answers)
        × (r.stderr_text ≡ stream err sys.answers)
  unfolding captured
  parent-code r code e f =
      let p = Parts-of r e in
      let h =
        result_of-code timeout code p.waited p.loop.result
          (ap (λ c. c.exit_code) (sym p.outcome) ∙ f) in
      let k = λ (ch : Channel).
        communicate_with_process-captured the_settings sys.fcntl_error sys.stop_at sys.answers
          p.loop ch p.looped h.clean in
      ground (arith, p.outcome, h, k out, k err, p.ended)

-- An exit code that is not negative is the one the program ended with, and then the two texts are
-- all that the program wrote to its two streams.
pub run_with_input-code :
    (timeout grace : ℤ) (arguments : List Text) (standard_input : Text) (sys : System)
    (r : CommandResult) (code : ℕ)
    → run_with_input timeout grace arguments standard_input sys ≡ some r
    → r.exit_code ≡ pos code
    → (wait_for sys.waits ≡ some (exited code))
      × (r.stdout_text ≡ stream out sys.answers)
      × (r.stderr_text ≡ stream err sys.answers)
unfolding run_with_input
run_with_input-code timeout grace [] standard_input sys r code e f = ground arith
run_with_input-code timeout grace (argument ∷ more) standard_input sys r code e f =
    ground (
      arith,
      parent-code (safety_duration timeout) (safety_duration grace) standard_input sys r code,
    )
