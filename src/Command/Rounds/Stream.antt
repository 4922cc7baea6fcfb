-- ===== src/Command/Rounds/Stream.antt =====
-- What the loop of src/core/command_runner.cpp captures of the two output streams, against a
-- description that knows neither the buffer's limit nor the descriptors.
use fedora_firewall_control.Command.Communicate.{
  has_failed, is_open, captured, remaining_of, receive, Revents, ReadResult, Poll, Round, Settings,
  Loop, Channel, ready, bytes, end_of_file, read_interrupted, read_failed, out, err, serve_output,
  send, serve_input, WriteResult, terminate, fail_output, close,
}
use fedora_firewall_control.Command.Rounds.Invariant.{IsConsistent}
use fedora_firewall_control.Common.{
  ℕ, zero, suc, ◌≤◌, ◌≡◌, refl, Bool, true, false, ◌||◌, Option, none, some, List, [], ◌∷◌, ◌++◌,
  arith, if◌then◌else◌, length, take, inl, inr, Bool-cases,
}
use fedora_firewall_control.Text.{Text, lit}
use mathlib.Core.List.{append-nil}

-- The read that a channel's descriptor leads to in a round.
abbrev pub read_at : Revents → ReadResult → Option ReadResult
read_at e r = if e.readable || e.hangup || e.error then some r else none

abbrev pub read_in : Channel → Poll → Option ReadResult
read_in out (ready y) = read_at y.out_events y.out_read
read_in err (ready y) = read_at y.err_events y.err_read
read_in ch _ = none

abbrev pub chunk : Option ReadResult → Text
chunk (some (bytes b bs)) = b ∷ bs
chunk _ = []

abbrev pub goes_on : Option ReadResult → Bool
goes_on (some end_of_file) = false
goes_on (some (read_failed why)) = false
goes_on _ = true

-- The bytes that the reads of a channel give, up to its end.
unfoldable pub stream : Channel → List Round → Text
stream ch [] = []
stream ch (r ∷ rs) =
    let rest = stream ch rs in
    chunk (read_in ch r.polled) ++ (if goes_on (read_in ch r.polled) then rest else [])

-- A step without a failure, on an open channel, adds the text and keeps the channel open as told.
pub record Adds (ch : Channel) (added : Text) (on : Bool) (s t : Loop) : Type 0 where
  pub clean : has_failed t.result ≡ false → has_failed s.result ≡ false
  pub taken :
      has_failed t.result ≡ false → is_open ch s ≡ true → captured ch t ≡ captured ch s ++ added
  pub kept : has_failed t.result ≡ false → is_open ch s ≡ true → is_open ch t ≡ on
  pub shut : is_open ch s ≡ false → is_open ch t ≡ false
  pub still : has_failed t.result ≡ false → is_open ch s ≡ false → captured ch t ≡ captured ch s

take-all : (n : ℕ) (t : Text) → length t ≤ n → take n t ≡ t
take-all zero [] h = refl
take-all zero (b ∷ bs) h = absurd (omega arith)
take-all (suc n) [] h = refl
take-all (suc n) (b ∷ bs) h = cc (take-all n bs (omega arith))

module _ (c : Settings) (stop_at : ℕ) where
  receive-Adds :
      (ch : Channel) (r : ReadResult) (s : Loop)
      → IsConsistent c s
      → is_open ch s ≡ true
      → Adds ch (chunk (some r)) (goes_on (some r)) s (receive c stop_at ch r s)
  unfolding receive has_failed is_open captured
  receive-Adds out (bytes b bs) s h o =
      ground (arith, take-all (remaining_of s.result.standard_output) (b ∷ bs))
  receive-Adds err (bytes b bs) s h o =
      ground (arith, take-all (remaining_of s.result.standard_error) (b ∷ bs))
  receive-Adds out end_of_file s h o = ground (arith, append-nil s.result.standard_output)
  receive-Adds err end_of_file s h o = ground (arith, append-nil s.result.standard_error)
  receive-Adds out read_interrupted s h o = ground (arith, append-nil s.result.standard_output)
  receive-Adds err read_interrupted s h o = ground (arith, append-nil s.result.standard_error)
  receive-Adds out (read_failed why) s h o = ground arith
  receive-Adds err (read_failed why) s h o = ground arith

  invalid-Adds :
      (ch : Channel) (added : Text) (on : Bool) (why : Text) (s : Loop)
      → Adds ch added on s (close ch (terminate c stop_at (fail_output why s)))
  unfolding close terminate fail_output has_failed is_open captured
  invalid-Adds out added on why s = ground arith
  invalid-Adds err added on why s = ground arith

  closed-Adds :
      (ch : Channel) (added : Text) (on : Bool) (s : Loop)
      → is_open ch s ≡ false
      → Adds ch added on s s
  closed-Adds ch added on s o = ground arith

  pub same-Adds : (ch : Channel) (s : Loop) → Adds ch [] true s s
  same-Adds ch s = ground (arith, append-nil (captured ch s))

  pub serve_output-Adds :
      (ch : Channel) (e : Revents) (r : ReadResult) (s : Loop)
      → IsConsistent c s
      → Adds ch (chunk (read_at e r)) (goes_on (read_at e r)) s (serve_output c stop_at ch e r s)
  unfolding serve_output
  serve_output-Adds ch e r s h = elim (Bool-cases (is_open ch s)) [
    | inl o ↦ ground (
      arith,
      receive-Adds ch r s h o,
      same-Adds ch s,
      invalid-Adds ch (chunk (read_at e r)) (goes_on (read_at e r))
          (lit "command output descriptor became invalid") s,
    )
    | inr o ↦ rw (o, serve_output) (closed-Adds ch _ _ s o)
  ]

  -- The other channel keeps its text and its descriptor.
  receive_other :
      (r : ReadResult) (s : Loop)
      → (Adds err [] true s (receive c stop_at out r s))
        × (Adds out [] true s (receive c stop_at err r s))
  unfolding receive has_failed is_open captured
  receive_other (bytes b bs) s = (
    ground (arith, append-nil s.result.standard_error),
    ground (arith, append-nil s.result.standard_output),
  )
  receive_other end_of_file s = (
    ground (arith, append-nil s.result.standard_error),
    ground (arith, append-nil s.result.standard_output),
  )
  receive_other read_interrupted s = (
    ground (arith, append-nil s.result.standard_error),
    ground (arith, append-nil s.result.standard_output),
  )
  receive_other (read_failed why) s = (ground arith, ground arith)

  pub serve_other :
      (e : Revents) (r : ReadResult) (s : Loop)
      → (Adds err [] true s (serve_output c stop_at out e r s))
        × (Adds out [] true s (serve_output c stop_at err e r s))
  unfolding serve_output has_failed is_open captured
  serve_other e r s = (
    ground (arith, (receive_other r s).0, append-nil s.result.standard_error),
    ground (arith, (receive_other r s).1, append-nil s.result.standard_output),
  )

  send-Adds : (ch : Channel) (w : WriteResult) (s : Loop) → Adds ch [] true s (send c w s)
  unfolding send has_failed is_open captured
  send-Adds out w s = ground (arith, append-nil s.result.standard_output)
  send-Adds err w s = ground (arith, append-nil s.result.standard_error)

  pub serve_input-Adds :
      (ch : Channel) (e : Revents) (w : WriteResult) (s : Loop)
      → IsConsistent c s
      → Adds ch [] true s (serve_input c stop_at e w s)
  unfolding serve_input has_failed is_open captured
  serve_input-Adds out e w s h =
      ground (arith, send-Adds out w s, append-nil s.result.standard_output)
  serve_input-Adds err e w s h =
      ground (arith, send-Adds err w s, append-nil s.result.standard_error)
