-- ===== src/Command/Rounds.antt =====
-- The loop of `communicate_with_process` of src/core/command_runner.cpp, over the rounds that the
-- system answers. `none` means that the answers ran out and the loop goes on.
pub mod Invariant
pub mod Deadline
pub mod Stream
pub mod Captured
use fedora_firewall_control.Common.{
  ℕ, ◌-◌, ◌/◌, true, false, not, ◌&&◌, Option, none, some, List, [], ◌∷◌, ◌++◌, leb, ltb, ◌==◌,
  if◌then◌else◌, is_empty,
}
use fedora_firewall_control.Text.{Text, lit}
use fedora_firewall_control.Command.Communicate.{
  CommunicationResult, Settings, Round, Poll, Ready, Loop, poll_failed, poll_interrupted, ready,
  out, err, terminate, fail_output, fail_input, close_input, serve_output, serve_input,
}

abbrev pub no_result : CommunicationResult
no_result = record {
  standard_output = [];
  standard_error = [];
  timed_out = false;
  truncated = false;
  output_failed = false;
  input_rejected = false;
  input_failed = false;
  input_error = [];
}

-- The state before the loop. `fcntl` fails with an error, or the pipe no longer blocks.
unfoldable pub begin : Settings → Option Text → ℕ → Loop
unfolding terminate fail_input close_input
begin c fcntl_error stop_at =
    let s : Loop = record {
      result = no_result;
      out_open = true;
      err_open = true;
      in_open = true;
      open_descriptors = if is_empty c.standard_input then 2 else 3;
      input_offset = 0;
      terminated = false;
      drain_deadline = 0;
      kills = 0;
    } in
    if is_empty c.standard_input then record s { in_open = false } else elim fcntl_error [
      | none ↦ s
      | some why ↦ close_input (terminate c stop_at (fail_input why s))
    ]

abbrev pub millisecond : ℕ
millisecond = 1_000_000

-- The timeout that `poll` is given, in milliseconds.
unfoldable pub wait_milliseconds : Settings → ℕ → Loop → ℕ
wait_milliseconds c now s =
    let left = (if s.terminated then s.drain_deadline - now else c.deadline - now) / millisecond in
    let capped = if s.terminated then left else if ltb left 1000 then left else 1000 in
    if ltb capped 1 then 1 else capped

-- The loop goes on, or it was left by `break`.
pub data Progress : Type 0 where
  running ended : Loop → Progress

unfoldable pub close_all : Loop → Loop
close_all s = record s { out_open = false; err_open = false; in_open = false }

unfoldable pub expire : Settings → Round → Loop → Loop
unfolding terminate
expire c r s =
    if not s.terminated && leb c.deadline r.now
    then terminate c r.stop_at (record s { result = record s.result { timed_out = true } })
    else s

unfoldable pub serve : Settings → ℕ → Ready → Loop → Loop
unfolding serve_output serve_input
serve c stop_at y s = serve_input c stop_at y.in_events y.in_write (
    serve_output c stop_at err y.err_events y.err_read
      (serve_output c stop_at out y.out_events y.out_read s))

unfoldable pub after_poll : Settings → ℕ → Poll → Loop → Progress
unfolding terminate fail_output close_all serve
after_poll c stop_at (poll_failed why) s =
    ended (
      close_all
        (terminate c stop_at (fail_output (lit "command output polling failed: " ++ why) s)))
after_poll c stop_at poll_interrupted s = running s
after_poll c stop_at (ready y) s = running (serve c stop_at y s)

-- The body of the loop.
unfoldable pub round : Settings → Round → Loop → Progress
unfolding expire after_poll close_all fail_output
round c r s =
    let t = expire c r s in
    if t.terminated && leb t.drain_deadline r.now
    then ended (
        close_all
          (fail_output (lit "command descendants kept output pipes open after termination") t))
    else after_poll c r.stop_at r.polled t

-- `break` leaves with the state, and otherwise the loop goes on.
unfoldable pub proceed : (Loop → Option Loop) → Progress → Option Loop
proceed next (running s) = next s
proceed next (ended s) = some s

unfoldable pub rounds : Settings → List Round → Loop → Option Loop
unfolding round proceed
rounds c [] s = if s.open_descriptors == 0 then some s else none
rounds c (r ∷ rs) s = elim (s.open_descriptors == 0) [
  | true ↦ some s
  | false ↦ proceed (rounds c rs) (round c r s)
]

-- The last loop closes what is still open.
unfoldable pub communicate_with_process : Settings → Option Text → ℕ → List Round → Option Loop
unfolding begin rounds close_all
communicate_with_process c fcntl_error stop_at rs =
    elim (rounds c rs (begin c fcntl_error stop_at)) [ none ↦ none | some s ↦ some (close_all s) ]
