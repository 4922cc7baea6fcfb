-- ===== src/Command/Communicate.antt =====
-- `communicate_with_process` of src/core/command_runner.cpp: the parent's side of a child process.
-- A round of the loop is what the system answers in it: the clock, `poll`, and the read or write
-- that each ready descriptor leads to. A clock reads nanoseconds.
use fedora_firewall_control.Common.{
  ℕ, ◌+◌, ◌-◌, ◌*◌, suc, Bool, true, false, not, ◌&&◌, ◌||◌, ◌∷◌, ◌++◌, ltb, ◌==◌, if◌then◌else◌,
  length, is_empty, take,
}
use fedora_firewall_control.Text.{Text, lit}

abbrev pub maximum_captured_output : ℕ
maximum_captured_output = 1024 * 1024

unfoldable pub append_error : Text → Text → Text
append_error target detail = if is_empty target then detail else target ++ (b'\n' ∷ detail)

pub record CommunicationResult : Type 0 where
  pub standard_output : Text
  pub standard_error : Text
  pub timed_out : Bool
  pub truncated : Bool
  pub output_failed : Bool
  pub input_rejected : Bool
  pub input_failed : Bool
  pub input_error : Text

-- The test that decides whether the result counts as a failure.
unfoldable pub has_failed : CommunicationResult → Bool
has_failed r = r.timed_out || r.truncated || r.input_rejected || r.input_failed || r.output_failed

-- `revents` of a descriptor, POLLNVAL first.
pub record Revents : Type 0 where
  pub invalid : Bool
  pub readable : Bool
  pub writable : Bool
  pub error : Bool
  pub hangup : Bool

-- A read of some bytes gives at least one.
pub data ReadResult : Type 0 where
  bytes : ℕ → Text → ReadResult
  end_of_file read_interrupted : ReadResult
  read_failed : Text → ReadResult

-- A pipe with room for n + 1 bytes takes as many of those offered.
pub data WriteResult : Type 0 where
  room : ℕ → WriteResult
  write_interrupted would_block broken_pipe : WriteResult
  write_failed : Text → WriteResult

pub record Ready : Type 0 where
  pub out_events : Revents
  pub out_read : ReadResult
  pub err_events : Revents
  pub err_read : ReadResult
  pub in_events : Revents
  pub in_write : WriteResult

pub data Poll : Type 0 where
  poll_failed : Text → Poll
  poll_interrupted : Poll
  ready : Ready → Poll

-- `stop_at` is the clock when `terminate` reads it, which it does at most once.
pub record Round : Type 0 where
  pub now : ℕ
  pub stop_at : ℕ
  pub polled : Poll

pub record Settings : Type 0 where
  pub deadline : ℕ
  pub pipe_drain_grace : ℕ
  pub standard_input : Text

-- The local variables. A descriptor is open or has been closed and set to -1; `kills` counts the
-- calls of `terminate_process_group`.
pub record Loop : Type 0 where
  pub result : CommunicationResult
  pub out_open : Bool
  pub err_open : Bool
  pub in_open : Bool
  pub open_descriptors : ℕ
  pub input_offset : ℕ
  pub terminated : Bool
  pub drain_deadline : ℕ
  pub kills : ℕ

unfoldable pub terminate : Settings → ℕ → Loop → Loop
terminate c stop_at s = if s.terminated then s else record s {
  kills = s.kills + 1;
  terminated = true;
  drain_deadline = stop_at + c.pipe_drain_grace;
}

unfoldable pub fail_output : Text → Loop → Loop
unfolding append_error
fail_output why s = record s {
  result = record s.result {
    output_failed = true;
    standard_error = append_error s.result.standard_error why;
  };
}

unfoldable pub fail_input : Text → Loop → Loop
fail_input why s = record s { result = record s.result { input_failed = true; input_error = why } }

pub data Channel : Type 0 where
  out err : Channel

unfoldable pub is_open : Channel → Loop → Bool
is_open out s = s.out_open
is_open err s = s.err_open

unfoldable pub captured : Channel → Loop → Text
captured out s = s.result.standard_output
captured err s = s.result.standard_error

unfoldable pub capture : Channel → Text → Loop → Loop
capture out t s = record s { result = record s.result { standard_output = t } }
capture err t s = record s { result = record s.result { standard_error = t } }

unfoldable pub close : Channel → Loop → Loop
close out s = record s { out_open = false; open_descriptors = s.open_descriptors - 1 }
close err s = record s { err_open = false; open_descriptors = s.open_descriptors - 1 }

unfoldable pub close_input : Loop → Loop
close_input s = record s { in_open = false; open_descriptors = s.open_descriptors - 1 }

abbrev pub is_quiet : Revents → Bool
is_quiet e = not (e.invalid || e.readable || e.writable || e.error || e.hangup)

-- What a buffer still takes.
abbrev pub remaining_of : Text → ℕ
remaining_of target =
    if ltb (length target) maximum_captured_output
    then maximum_captured_output - length target
    else 0

unfoldable pub receive : Settings → ℕ → Channel → ReadResult → Loop → Loop
unfolding captured capture close fail_output terminate
receive c stop_at ch (bytes b bs) s =
    let target = captured ch s in
    let remaining = remaining_of target in
    let t = capture ch (target ++ take remaining (b ∷ bs)) s in
    if ltb remaining (length (b ∷ bs)) && not s.terminated
    then terminate c stop_at (record t { result = record t.result { truncated = true } })
    else t
receive c stop_at ch end_of_file s = close ch s
receive c stop_at ch read_interrupted s = s
receive c stop_at ch (read_failed why) s =
    close ch (terminate c stop_at (fail_output (lit "command output read failed: " ++ why) s))

unfoldable pub serve_output : Settings → ℕ → Channel → Revents → ReadResult → Loop → Loop
unfolding is_open receive close terminate fail_output
serve_output c stop_at ch e r s =
    if not (is_open ch s) || is_quiet e
    then s
    else if e.invalid
    then close ch
        (terminate c stop_at (fail_output (lit "command output descriptor became invalid") s))
    else if not (e.readable || e.hangup || e.error)
    then s
    else receive c stop_at ch r s

unfoldable pub send : Settings → WriteResult → Loop → Loop
unfolding close_input fail_input
send c (room n) s =
    let left = length c.standard_input - s.input_offset in
    let offset = s.input_offset + (if ltb n left then suc n else left) in
    let t = record s { input_offset = offset } in
    if offset == length c.standard_input then close_input t else t
send c write_interrupted s = s
send c would_block s = s
send c broken_pipe s = close_input (record s { result = record s.result { input_rejected = true } })
send c (write_failed why) s = close_input (fail_input why s)

unfoldable pub serve_input : Settings → ℕ → Revents → WriteResult → Loop → Loop
unfolding send close_input terminate fail_input
serve_input c stop_at e w s =
    if not s.in_open || is_quiet e
    then s
    else if e.invalid
    then close_input (
        terminate c stop_at (fail_input (lit "command standard-input descriptor became invalid") s))
    else if e.error || e.hangup
    then close_input (record s {
      result = record s.result { input_rejected = ltb s.input_offset (length c.standard_input) };
    })
    else if not e.writable
    then s
    else send c w s
