-- ===== src/Command/Rounds/Invariant.antt =====
-- What holds of the loop of src/core/command_runner.cpp between two of its steps, whatever the
-- system answers.
use fedora_firewall_control.Command.Communicate.{
  maximum_captured_output, has_failed, is_open, remaining_of, receive, ReadResult, Settings, Loop,
  Channel, bytes, end_of_file, read_interrupted, read_failed, out, err, serve_output, send,
  serve_input, Revents, WriteResult, Ready, Round, room, write_interrupted, would_block,
  broken_pipe, write_failed, fail_output, Poll, ready, poll_failed, poll_interrupted, append_error,
}
use fedora_firewall_control.Common.{
  ℕ, zero, suc, ◌+◌, ◌≤◌, ◌<◌, ◌≡◌, ◌⊎◌, Bool, true, false, [], ◌∷◌, arith, length, take,
  length-append, Option, inl, inr, ◌&&◌, some, List, leb, ◌==◌, Bool-cases, Option-cases, refl,
  ◌++◌, is_empty,
}
use fedora_firewall_control.Text.{Text, lit}
use fedora_firewall_control.Command.Rounds.{
  begin, expire, serve, round, running, close_all, after_poll, rounds, Progress, ended, proceed,
  communicate_with_process,
}

unfoldable pub bit : Bool → ℕ
bit true = 1
bit false = 0

pub record IsConsistent (c : Settings) (s : Loop) : Type 0 where
  pub counted : s.open_descriptors ≡ bit s.out_open + bit s.err_open + bit s.in_open
  pub out_bounded : length s.result.standard_output ≤ maximum_captured_output
  pub err_bounded :
      s.result.output_failed ≡ false → length s.result.standard_error ≤ maximum_captured_output
  pub flagged : s.terminated ≡ true → has_failed s.result ≡ true
  pub killed : s.kills ≡ bit s.terminated
  pub explained : s.result.output_failed ≡ true → is_empty s.result.standard_error ≡ false
  pub unsent : s.in_open ≡ true → s.input_offset < length c.standard_input
  pub sent :
      s.in_open ≡ false → (has_failed s.result ≡ true) ⊎ (s.input_offset ≡ length c.standard_input)

length-take-le : (n : ℕ) (t : Text) → length (take n t) ≤ n
length-take-le zero t = omega arith
length-take-le (suc n) [] = omega arith
length-take-le (suc n) (b ∷ bs) = omega (arith, length-take-le n bs)

pub is_empty-append_error :
    (target detail : Text) → is_empty detail ≡ false → is_empty (append_error target detail) ≡ false
unfolding append_error
is_empty-append_error [] detail h = h
is_empty-append_error (b ∷ bs) detail h = refl

is_empty-append : (s t : Text) → is_empty s ≡ false → is_empty (s ++ t) ≡ false
is_empty-append [] t h = cc
is_empty-append (b ∷ bs) t h = refl

-- Each of the loop's messages leaves the text of standard error nonempty.
module _ (target why : Text) where
  read_message : is_empty (append_error target (lit "command output read failed: " ++ why)) ≡ false
  unfolding lit
  read_message = is_empty-append_error target _ refl

  invalid_message :
      is_empty (append_error target (lit "command output descriptor became invalid")) ≡ false
  unfolding lit
  invalid_message = is_empty-append_error target _ refl

  poll_message :
      is_empty (append_error target (lit "command output polling failed: " ++ why)) ≡ false
  unfolding lit
  poll_message = is_empty-append_error target _ refl

  drain_message :
      is_empty
        (append_error target (lit "command descendants kept output pipes open after termination"))
      ≡ false
  unfolding lit
  drain_message = is_empty-append_error target _ refl

module _ (c : Settings) (stop_at : ℕ) where
  receive-IsConsistent :
      (ch : Channel) (r : ReadResult) (s : Loop)
      → is_open ch s ≡ true
      → IsConsistent c s
      → IsConsistent c (receive c stop_at ch r s)
  unfolding receive is_open bit has_failed
  receive-IsConsistent out (bytes b bs) s o h = ground (
    arith,
    length-append s.result.standard_output (take (remaining_of s.result.standard_output) (b ∷ bs)),
    length-take-le (remaining_of s.result.standard_output) (b ∷ bs),
  )
  receive-IsConsistent err (bytes b bs) s o h = ground (
    arith,
    is_empty-append s.result.standard_error (take (remaining_of s.result.standard_error) (b ∷ bs)),
    length-append s.result.standard_error (take (remaining_of s.result.standard_error) (b ∷ bs)),
    length-take-le (remaining_of s.result.standard_error) (b ∷ bs),
  )
  receive-IsConsistent out end_of_file s o h = ground arith
  receive-IsConsistent err end_of_file s o h = ground arith
  receive-IsConsistent ch read_interrupted s o h = h
  receive-IsConsistent out (read_failed why) s o h =
      ground (arith, read_message s.result.standard_error why)
  receive-IsConsistent err (read_failed why) s o h =
      ground (arith, read_message s.result.standard_error why)

  pub serve_output-IsConsistent :
      (ch : Channel) (e : Revents) (r : ReadResult) (s : Loop)
      → IsConsistent c s
      → IsConsistent c (serve_output c stop_at ch e r s)
  unfolding serve_output bit has_failed
  serve_output-IsConsistent out e r s h =
      unfold is_open in
      ground (arith, receive-IsConsistent out r s, invalid_message s.result.standard_error [])
  serve_output-IsConsistent err e r s h =
      ground (arith, receive-IsConsistent err r s, invalid_message s.result.standard_error [])

  send-IsConsistent :
      (w : WriteResult) (s : Loop)
      → s.in_open ≡ true
      → IsConsistent c s
      → IsConsistent c (send c w s)
  unfolding send bit has_failed
  send-IsConsistent (room n) s o h = ground arith
  send-IsConsistent write_interrupted s o h = h
  send-IsConsistent would_block s o h = h
  send-IsConsistent broken_pipe s o h = ground arith
  send-IsConsistent (write_failed why) s o h = ground arith

  serve_input-IsConsistent :
      (e : Revents) (w : WriteResult) (s : Loop)
      → IsConsistent c s
      → IsConsistent c (serve_input c stop_at e w s)
  unfolding serve_input bit has_failed
  serve_input-IsConsistent e w s h = ground (arith, send-IsConsistent w s)

  serve-IsConsistent :
      (y : Ready) (s : Loop) → IsConsistent c s → IsConsistent c (serve c stop_at y s)
  unfolding serve
  serve-IsConsistent y s h = serve_input-IsConsistent y.in_events y.in_write _ (
      serve_output-IsConsistent err y.err_events y.err_read _
        (serve_output-IsConsistent out y.out_events y.out_read s h))

pub expire-IsConsistent :
    (c : Settings) (r : Round) (s : Loop) → IsConsistent c s → IsConsistent c (expire c r s)
unfolding expire bit has_failed
expire-IsConsistent c r s h = ground arith

pub begin-IsConsistent :
    (c : Settings) (fcntl_error : Option Text) (stop_at : ℕ)
    → IsConsistent c (begin c fcntl_error stop_at)
unfolding begin bit has_failed
begin-IsConsistent c fcntl_error stop_at = ground arith

-- What holds of the loop at its end.
pub record IsSettled (c : Settings) (s : Loop) : Type 0 where
  pub out_bounded : length s.result.standard_output ≤ maximum_captured_output
  pub err_bounded :
      s.result.output_failed ≡ false → length s.result.standard_error ≤ maximum_captured_output
  pub killed : s.kills ≤ 1
  pub explained : s.result.output_failed ≡ true → is_empty s.result.standard_error ≡ false
  pub delivered : (has_failed s.result ≡ true) ⊎ (s.input_offset ≡ length c.standard_input)
  pub out_closed : s.out_open ≡ false
  pub err_closed : s.err_open ≡ false
  pub in_closed : s.in_open ≡ false

abbrev pub Keeps : Settings → Progress → Type 0
Keeps c (running s) = IsConsistent c s
Keeps c (ended s) = IsSettled c s

after_poll-Keeps :
    (c : Settings) (stop_at : ℕ) (p : Poll) (s : Loop)
    → IsConsistent c s
    → Keeps c (after_poll c stop_at p s)
unfolding after_poll has_failed bit
after_poll-Keeps c stop_at (poll_failed why) s h =
    ground (arith, poll_message s.result.standard_error why)
after_poll-Keeps c stop_at poll_interrupted s h = h
after_poll-Keeps c stop_at (ready y) s h = serve-IsConsistent c stop_at y s h

break-IsSettled :
    (c : Settings) (s : Loop)
    → IsConsistent c s
    → IsSettled c (
        close_all
          (fail_output (lit "command descendants kept output pipes open after termination") s))
unfolding close_all fail_output has_failed bit
break-IsSettled c s h = ground (arith, drain_message s.result.standard_error [])

pub round-Keeps : (c : Settings) (r : Round) (s : Loop) → IsConsistent c s → Keeps c (round c r s)
unfolding round
round-Keeps c r s h =
    elim (Bool-cases ((expire c r s).terminated && leb (expire c r s).drain_deadline r.now)) [
      | inl late ↦ rw late (break-IsSettled c (expire c r s) (expire-IsConsistent c r s h))
      | inr early ↦
          rw early
            (after_poll-Keeps c r.stop_at r.polled (expire c r s) (expire-IsConsistent c r s h))
    ]

leave-IsSettled :
    (c : Settings) (s : Loop) → IsConsistent c s → s.open_descriptors ≡ 0 → IsSettled c s
unfolding bit
leave-IsSettled c s h e = ground arith

proceed-IsSettled :
    (c : Settings) (rs : List Round) (p : Progress) (t : Loop)
    → ((s t : Loop) → IsConsistent c s → rounds c rs s ≡ some t → IsSettled c t)
    → Keeps c p
    → proceed (rounds c rs) p ≡ some t
    → IsSettled c t
unfolding proceed
proceed-IsSettled c rs (running s) t keep h e = keep s t h e
proceed-IsSettled c rs (ended s) t keep h e = ground arith

rounds-IsSettled :
    (c : Settings) (rs : List Round) (s t : Loop)
    → IsConsistent c s
    → rounds c rs s ≡ some t
    → IsSettled c t
unfolding rounds
rounds-IsSettled c [] s t h e = ground (arith, leave-IsSettled c s h)
rounds-IsSettled c (r ∷ rs) s t h e = elim (Bool-cases (s.open_descriptors == 0)) [
  | inl closed ↦ ground (arith, leave-IsSettled c s h)
  | inr open_yet ↦
      proceed-IsSettled c rs (round c r s) t (rounds-IsSettled c rs) (round-Keeps c r s h)
        (rw (open_yet, rounds) at e)
]

pub communicate_with_process-IsSettled :
    (c : Settings) (fcntl_error : Option Text) (stop_at : ℕ) (rs : List Round) (s : Loop)
    → communicate_with_process c fcntl_error stop_at rs ≡ some s
    → IsSettled c s
unfolding communicate_with_process close_all
communicate_with_process-IsSettled c fcntl_error stop_at rs s e =
    elim (Option-cases (rounds c rs (begin c fcntl_error stop_at))) [
      | inl unanswered ↦ ground (arith, unanswered)
      | inr (t, found) ↦
          let h =
            rounds-IsSettled c rs (begin c fcntl_error stop_at) t
              (begin-IsConsistent c fcntl_error stop_at) found in
          ground (arith, found, h)
    ]
