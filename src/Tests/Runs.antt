-- ===== src/Tests/Runs.antt =====
-- The command runner at concrete answers of the system.
use fedora_firewall_control.Command.{CommandResult, pos, negsuc}
use fedora_firewall_control.Command.Communicate.{
  Revents, ReadResult, WriteResult, Round, Loop, ready, bytes, end_of_file, room, would_block, out,
  err, Settings,
}
use fedora_firewall_control.Command.Rounds.{no_result}
use fedora_firewall_control.Command.Rounds.Stream.{stream}
use fedora_firewall_control.Command.Run.{
  wait_for, safety_duration, run_with_input, Waited, System, wait_interrupted, exited, signaled,
}
use fedora_firewall_control.Command.Run.Messages.{run_with_input-negative}
use fedora_firewall_control.Command.Run.Outcome.{run_with_input-code}
use fedora_firewall_control.Command.Run.Returns.{run_with_input-returns, IsWaiting}
use fedora_firewall_control.Common.{
  ℕ, ◌≡◌, refl, ◌≢◌, ◌⊎◌, inl, inr, true, false, none, some, List, [], ◌∷◌, arith, is_empty,
}
use fedora_firewall_control.Text.{Text, lit}
use fedora_firewall_control.Command.Child.{child_environment, child, ChildSystem, becomes}
use fedora_firewall_control.Command.Child.Environment.{child-Ends, Ends}

abbrev readable_now : Revents
readable_now = record {
  invalid = false;
  readable = true;
  writable = false;
  error = false;
  hangup = false;
}

abbrev writable_now : Revents
writable_now = record {
  invalid = false;
  readable = false;
  writable = true;
  error = false;
  hangup = false;
}

abbrev nothing : Revents
nothing = record {
  invalid = false;
  readable = false;
  writable = false;
  error = false;
  hangup = false;
}

abbrev at : ℕ → Revents → ReadResult → Revents → ReadResult → Revents → WriteResult → Round
at n a b c d e f = record {
  now = n;
  stop_at = n;
  polled = ready (record {
    out_events = a;
    out_read = b;
    err_events = c;
    err_read = d;
    in_events = e;
    in_write = f;
  });
}

-- Output and input, a note on standard error, and both ends.
abbrev talk : List Round
talk =
    at 10 readable_now (bytes b'o' (b'k' ∷ [])) nothing end_of_file writable_now (room 0)
    ∷ at 20 nothing end_of_file readable_now (bytes b'!' []) writable_now (room 9)
    ∷ at 30 readable_now end_of_file readable_now end_of_file nothing would_block
    ∷ []

-- A child that stays silent.
abbrev silence : List Round
silence =
    at 5 nothing end_of_file nothing end_of_file nothing would_block
    ∷ at 1_000_005 nothing end_of_file nothing end_of_file nothing would_block
    ∷ at 2_000_005 nothing end_of_file nothing end_of_file nothing would_block
    ∷ at 3_000_005 nothing end_of_file nothing end_of_file nothing would_block
    ∷ at 4_000_005 nothing end_of_file nothing end_of_file nothing would_block
    ∷ []

abbrev system : List Round → List Waited → System
system rs ws = record {
  pipe_error = none;
  fork_error = none;
  forked_at = 0;
  fcntl_error = none;
  stop_at = 0;
  answers = rs;
  waits = ws;
}

abbrev talking : System
talking = system talk (wait_interrupted ∷ exited 3 ∷ [])

abbrev silent : System
silent = system silence (signaled ∷ [])

abbrev argv : List Text
argv = lit "tool" ∷ []

talking_result : CommandResult
talking_result = record {
  exit_code = pos 3;
  stdout_text = b'o' ∷ b'k' ∷ [];
  stderr_text = b'!' ∷ [];
}

talks : run_with_input (pos 5) (pos 1) argv (lit "abc") talking ≡ some talking_result
unfolding run_with_input talking_result lit
talks = refl

silent_result : CommandResult
unfolding lit
silent_result = record {
  exit_code = negsuc 0;
  stdout_text = [];
  stderr_text =
      lit
        "command descendants kept output pipes open after termination\ncommand exceeded 2-millisecond safety limit";
}

stays_silent : run_with_input (pos 2) (pos 1) argv [] silent ≡ some silent_result
unfolding run_with_input silent_result lit
stays_silent = refl

run_with_input-code_example :
    (wait_for talking.waits ≡ some (exited 3))
    × (talking_result.stdout_text ≡ stream out talk)
    × (talking_result.stderr_text ≡ stream err talk)
unfolding talking_result
run_with_input-code_example =
    run_with_input-code (pos 5) (pos 1) argv (lit "abc") talking talking_result 3 talks refl

run_with_input-negative_example :
    (wait_for silent.waits ≡ some signaled) ⊎ (is_empty silent_result.stderr_text ≡ false)
unfolding silent_result
run_with_input-negative_example =
    run_with_input-negative (pos 2) (pos 1) argv [] silent silent_result 0
      (λ why h. elim h [ inl e ↦ ground (arith, e) | inr e ↦ ground (arith, e) ]) stays_silent refl

run_with_input-returns_example :
    (run_with_input (pos 1) (pos 1) argv [] silent ≢ none) ⊎ IsWaiting (pos 1) (pos 1) [] silent
unfolding safety_duration wait_for
run_with_input-returns_example =
    run_with_input-returns (pos 1) (pos 1) argv [] silent 1_000_000 0 (omega arith) (omega arith)
      (omega arith) (λ s e k. ground arith)

abbrev talk_settings : Settings
talk_settings = record { deadline = 1000; pipe_drain_grace = 1; standard_input = b'a' ∷ b'b' ∷ [] }

talk_end : Loop
talk_end = record {
  result = record no_result { standard_output = b'o' ∷ b'k' ∷ []; standard_error = b'!' ∷ [] };
  out_open = false;
  err_open = false;
  in_open = false;
  open_descriptors = 0;
  input_offset = 2;
  terminated = false;
  drain_deadline = 0;
  kills = 0;
}

abbrev hostile_path : List (Text × Text)
hostile_path = (lit "HOME", lit "/root") ∷ (lit "PATH", lit "/tmp") ∷ []

abbrev starting : ChildSystem
starting = record { duplicated = true; group_error = none; exec_error = none; writes = [] }

becomes_it :
    child (lit "ping") [] hostile_path starting
    ≡ some (becomes (lit "ping" ∷ []) (child_environment hostile_path))
unfolding child
becomes_it = refl

child-Ends_example :
    Ends
      (lit "ping")
      []
      hostile_path
      starting
      (becomes (lit "ping" ∷ []) (child_environment hostile_path))
child-Ends_example = child-Ends (lit "ping") [] hostile_path starting _ becomes_it
