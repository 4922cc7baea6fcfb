-- ===== src/Command/Run/Messages.antt =====
-- The messages of a failed run of src/core/command_runner.cpp.
use fedora_firewall_control.Text.Decimal.{to_string}
use fedora_firewall_control.Command.Run.Outcome.{Parts-of, the_settings}
use fedora_firewall_control.Command.{ℤ, CommandResult, negsuc}
use fedora_firewall_control.Command.Communicate.{append_error, has_failed, CommunicationResult}
use fedora_firewall_control.Command.Rounds.Invariant.{
  is_empty-append_error, communicate_with_process-IsSettled,
}
use fedora_firewall_control.Command.Run.{
  wait_for, safety_duration, append_if, after_wait, standard_error_of, result_of, parent,
  run_with_input, Waited, System, wait_interrupted, wait_failed, exited, signaled,
}
use fedora_firewall_control.Common.{
  ℕ, ◌≡◌, refl, ◌≢◌, ◌⊎◌, inl, inr, Bool, true, false, some, List, [], ◌∷◌, ◌++◌, arith, Bool-cases,
  Option-cases, is_empty,
}
use fedora_firewall_control.Text.{Text, lit}

append_if_says :
    (flag : Bool) (detail target : Text)
    → is_empty detail ≡ false
    → (flag ≡ true) ⊎ (is_empty target ≡ false)
    → is_empty (append_if flag detail target) ≡ false
unfolding append_if append_error
append_if_says true detail [] h k = h
append_if_says true detail (b ∷ bs) h k = refl
append_if_says false detail target h k = ground arith

standard_error_of_says :
    (timeout : ℕ) (r : CommunicationResult)
    → (r.output_failed ≡ true → is_empty r.standard_error ≡ false)
    → has_failed r ≡ true
    → is_empty (standard_error_of timeout r) ≡ false
unfolding standard_error_of has_failed lit
standard_error_of_says timeout r h e =
    let late = lit "command exceeded " ++ (to_string timeout ++ lit "-millisecond safety limit") in
    let t1 = append_if r.timed_out late r.standard_error in
    let long = lit "command output exceeded 1 MiB safety limit" in
    let t2 = append_if r.truncated long t1 in
    let refusal = lit "command did not accept all standard input" in
    let t3 = append_if r.input_rejected refusal t2 in
    let broken = lit "command standard-input write failed: " ++ r.input_error in
    ground (
      arith,
      append_if_says r.timed_out late r.standard_error refl,
      append_if_says r.truncated long t1 refl,
      append_if_says r.input_rejected refusal t2 refl,
      append_if_says r.input_failed broken t3 refl,
    )

after_wait_says :
    (w : Waited) (r : CommunicationResult)
    → (r.output_failed ≡ true → is_empty r.standard_error ≡ false)
    → (after_wait w r).output_failed ≡ true
    → is_empty (after_wait w r).standard_error ≡ false
unfolding after_wait lit
after_wait_says wait_interrupted r h e = h e
after_wait_says (wait_failed why) r h e = is_empty-append_error r.standard_error _ refl
after_wait_says (exited code) r h e = h e
after_wait_says signaled r h e = h e

clean_negative :
    (timeout n : ℕ) (w : Waited) (r : CommunicationResult)
    → has_failed (after_wait w r) ≡ false
    → (result_of timeout w r).exit_code ≡ negsuc n
    → (w ≡ signaled) ⊎ (w ≡ wait_interrupted)
unfolding result_of has_failed
clean_negative timeout n wait_interrupted r c e = inr refl
clean_negative timeout n (wait_failed why) r c e = ground arith
clean_negative timeout n (exited code) r c e = ground arith
clean_negative timeout n signaled r c e = inl refl

result_of-negative :
    (timeout n : ℕ) (w : Waited) (r : CommunicationResult)
    → (r.output_failed ≡ true → is_empty r.standard_error ≡ false)
    → (result_of timeout w r).exit_code ≡ negsuc n
    → (w ≡ signaled)
      ⊎ (w ≡ wait_interrupted)
      ⊎ (is_empty (result_of timeout w r).stderr_text ≡ false)
unfolding result_of
result_of-negative timeout n w r h e = elim (Bool-cases (has_failed (after_wait w r))) [
  | inl failed ↦
      inr (inr (standard_error_of_says timeout (after_wait w r) (after_wait_says w r h) failed))
  | inr clean ↦ ground (arith, clean_negative timeout n w r clean e)
]

wait_for_done : (ws : List Waited) → wait_for ws ≢ some wait_interrupted
unfolding wait_for
wait_for_done [] = ground arith
wait_for_done (wait_interrupted ∷ ws) = wait_for_done ws
wait_for_done (wait_failed why ∷ ws) = ground arith
wait_for_done (exited code ∷ ws) = ground arith
wait_for_done (signaled ∷ ws) = ground arith

parent-negative :
    (timeout grace : ℕ) (standard_input : Text) (sys : System) (r : CommandResult) (n : ℕ)
    → parent timeout grace standard_input sys ≡ some r
    → r.exit_code ≡ negsuc n
    → (wait_for sys.waits ≡ some signaled) ⊎ (is_empty r.stderr_text ≡ false)
parent-negative timeout grace standard_input sys r n e f =
    let p = Parts-of timeout grace standard_input sys r e in
    let k =
      communicate_with_process-IsSettled (the_settings timeout grace standard_input sys)
        sys.fcntl_error sys.stop_at sys.answers p.loop p.looped in
    ground (
      arith,
      p.outcome,
      p.ended,
      wait_for_done sys.waits,
      result_of-negative timeout n p.waited p.loop.result k.explained,
    )

-- A negative exit code has a message in the text of standard error, unless a signal ended the
-- program. The errors of `pipe` and `fork` are taken to have a text.
pub run_with_input-negative :
    (timeout grace : ℤ) (arguments : List Text) (standard_input : Text) (sys : System)
    (r : CommandResult) (n : ℕ)
    → ((why : Text)
        → (sys.pipe_error ≡ some why) ⊎ (sys.fork_error ≡ some why)
        → is_empty why ≡ false)
    → run_with_input timeout grace arguments standard_input sys ≡ some r
    → r.exit_code ≡ negsuc n
    → (wait_for sys.waits ≡ some signaled) ⊎ (is_empty r.stderr_text ≡ false)
unfolding run_with_input lit
run_with_input-negative timeout grace [] standard_input sys r n says e f = inr (ground arith)
run_with_input-negative timeout grace (argument ∷ more) standard_input sys r n says e f =
    elim (Option-cases sys.pipe_error) [
      | inr (why, refused) ↦ ground (arith, says why (inl refused))
      | inl piped ↦ elim (Option-cases sys.fork_error) [
        | inr (why, refused) ↦ ground (arith, says why (inr refused))
        | inl forked ↦ ground (
          arith,
          parent-negative (safety_duration timeout) (safety_duration grace) standard_input sys r n,
        )
      ]
    ]
