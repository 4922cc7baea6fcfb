-- ===== src/Command/Rounds/Captured.antt =====
-- The whole loop of src/core/command_runner.cpp against the streams it reads.
use mathlib.Core.List.{append-nil, append_assoc}
use fedora_firewall_control.Command.Communicate.{
  has_failed, fail_output, is_open, captured, serve_output, ReadResult, Ready, Poll, Round,
  Settings, Loop, Channel, ready, poll_failed, poll_interrupted, out, err,
}
use fedora_firewall_control.Command.Rounds.{
  begin, close_all, expire, serve, after_poll, round, proceed, rounds, communicate_with_process,
  Progress, running, ended,
}
use fedora_firewall_control.Command.Rounds.Invariant.{
  bit, serve_output-IsConsistent, expire-IsConsistent, Keeps, round-Keeps, IsConsistent,
  begin-IsConsistent,
}
use fedora_firewall_control.Command.Rounds.Stream.{
  read_in, chunk, goes_on, stream, same-Adds, serve_output-Adds, serve_other, serve_input-Adds,
  Adds,
}
use fedora_firewall_control.Common.{
  ℕ, ◌≡◌, inl, inr, Bool, true, false, ◌&&◌, Option, some, List, [], ◌∷◌, ◌++◌, arith, leb, ◌==◌,
  Bool-cases, Option-cases, refl,
}
use fedora_firewall_control.Json.Escape.RoundTrip.{read}
use fedora_firewall_control.Text.{Text}

Adds-after :
    (ch : Channel) (added : Text) (on : Bool) (s t u : Loop)
    → Adds ch added on s t
    → Adds ch [] true t u
    → Adds ch added on s u
Adds-after ch added on s t u h k = ground (arith, append-nil (captured ch t), Bool-cases on)

Adds-before :
    (ch : Channel) (added : Text) (on : Bool) (s t u : Loop)
    → Adds ch [] true s t
    → Adds ch added on t u
    → Adds ch added on s u
Adds-before ch added on s t u h k =
    ground (arith, append-nil (captured ch s), Bool-cases (is_open ch s))

module _ (c : Settings) (stop_at : ℕ) (y : Ready) (s : Loop) (h : IsConsistent c s) where
  serve-Adds :
      (ch : Channel)
      → Adds ch
          (chunk (read_in ch (ready y)))
          (goes_on (read_in ch (ready y)))
          s
          (serve c stop_at y s)
  unfolding serve
  serve-Adds out =
      let s1 = serve_output c stop_at out y.out_events y.out_read s in
      let h1 = serve_output-IsConsistent c stop_at out y.out_events y.out_read s h in
      let s2 = serve_output c stop_at err y.err_events y.err_read s1 in
      let h2 = serve_output-IsConsistent c stop_at err y.err_events y.err_read s1 h1 in
      Adds-after out _ _ s s1 _ (serve_output-Adds c stop_at out y.out_events y.out_read s h) (
        Adds-after out [] true s1 s2 _ (serve_other c stop_at y.err_events y.err_read s1).1
          (serve_input-Adds c stop_at out y.in_events y.in_write s2 h2))
  serve-Adds err =
      let s1 = serve_output c stop_at out y.out_events y.out_read s in
      let h1 = serve_output-IsConsistent c stop_at out y.out_events y.out_read s h in
      let s2 = serve_output c stop_at err y.err_events y.err_read s1 in
      let h2 = serve_output-IsConsistent c stop_at err y.err_events y.err_read s1 h1 in
      Adds-before err _ _ s s1 _ (serve_other c stop_at y.out_events y.out_read s).0 (
        Adds-after err _ _ s1 s2 _ (serve_output-Adds c stop_at err y.err_events y.err_read s1 h1)
          (serve_input-Adds c stop_at err y.in_events y.in_write s2 h2))

expire-Adds :
    (c : Settings) (r : Round) (ch : Channel) (s : Loop) → Adds ch [] true s (expire c r s)
unfolding expire has_failed is_open captured
expire-Adds c r out s = ground (arith, append-nil s.result.standard_output)
expire-Adds c r err s = ground (arith, append-nil s.result.standard_error)

-- A round that ends the loop has failed.
abbrev Advances : Channel → Option ReadResult → Loop → Progress → Type 0
Advances ch read s (running t) = Adds ch (chunk read) (goes_on read) s t
Advances ch read s (ended t) = has_failed t.result ≡ true

break_failed : (why : Text) (s : Loop) → has_failed (close_all (fail_output why s)).result ≡ true
unfolding close_all fail_output has_failed
break_failed why s = ground arith

after_poll-Advances :
    (c : Settings) (stop_at : ℕ) (ch : Channel) (p : Poll) (s : Loop)
    → IsConsistent c s
    → Advances ch (read_in ch p) s (after_poll c stop_at p s)
unfolding after_poll has_failed
after_poll-Advances c stop_at out (poll_failed why) s h = ground arith
after_poll-Advances c stop_at err (poll_failed why) s h = ground arith
after_poll-Advances c stop_at out poll_interrupted s h = same-Adds c stop_at out s
after_poll-Advances c stop_at err poll_interrupted s h = same-Adds c stop_at err s
after_poll-Advances c stop_at ch (ready y) s h = serve-Adds c stop_at y s h ch

Advances-before :
    (ch : Channel) (read : Option ReadResult) (s t : Loop) (p : Progress)
    → Adds ch [] true s t
    → Advances ch read t p
    → Advances ch read s p
Advances-before ch read s t (running u) h k = Adds-before ch _ _ s t u h k
Advances-before ch read s t (ended u) h k = k

round-Advances :
    (c : Settings) (r : Round) (ch : Channel) (s : Loop)
    → IsConsistent c s
    → Advances ch (read_in ch r.polled) s (round c r s)
unfolding round
round-Advances c r ch s h =
    let t = expire c r s in
    elim (Bool-cases (t.terminated && leb t.drain_deadline r.now)) [
      | inl late ↦ rw (late, round) (break_failed _ t)
      | inr early ↦
          rw (early, round)
            (Advances-before ch _ s t _ (expire-Adds c r ch s)
              (after_poll-Advances c r.stop_at ch r.polled t (expire-IsConsistent c r s h)))
    ]

-- Between two states of the loop: without a failure at the end, there was none before, and an open
-- channel has captured its stream.
record Delivers (ch : Channel) (rs : List Round) (s t : Loop) : Type 0 where
  clean : has_failed t.result ≡ false → has_failed s.result ≡ false
  taken :
      has_failed t.result ≡ false
      → is_open ch s ≡ true
      → captured ch t ≡ captured ch s ++ stream ch rs
  still : has_failed t.result ≡ false → is_open ch s ≡ false → captured ch t ≡ captured ch s

left-Delivers :
    (c : Settings) (ch : Channel) (rs : List Round) (s : Loop)
    → IsConsistent c s
    → s.open_descriptors ≡ 0
    → Delivers ch rs s s
unfolding is_open bit
left-Delivers c out rs s h e = ground arith
left-Delivers c err rs s h e = ground arith

step-Delivers :
    (ch : Channel) (r : Round) (rs : List Round) (s t u : Loop)
    → Adds ch (chunk (read_in ch r.polled)) (goes_on (read_in ch r.polled)) s t
    → Delivers ch rs t u
    → Delivers ch (r ∷ rs) s u
unfolding stream
step-Delivers ch r rs s t u h k = ground (
  arith,
  append_assoc (captured ch s) (chunk (read_in ch r.polled)) (stream ch rs),
  append-nil (chunk (read_in ch r.polled)),
  Bool-cases (goes_on (read_in ch r.polled)),
)

proceed-Delivers :
    (c : Settings) (ch : Channel) (r : Round) (rs : List Round) (s t : Loop) (p : Progress)
    → ((u : Loop) → IsConsistent c u → rounds c rs u ≡ some t → Delivers ch rs u t)
    → Keeps c p
    → Advances ch (read_in ch r.polled) s p
    → proceed (rounds c rs) p ≡ some t
    → Delivers ch (r ∷ rs) s t
unfolding proceed
proceed-Delivers c ch r rs s t (running u) rest h k e = step-Delivers ch r rs s u t k (rest u h e)
proceed-Delivers c ch r rs s t (ended u) rest h k e = ground arith

rounds-Delivers :
    (c : Settings) (ch : Channel) (rs : List Round) (s t : Loop)
    → IsConsistent c s
    → rounds c rs s ≡ some t
    → Delivers ch rs s t
unfolding rounds
rounds-Delivers c ch [] s t h e = ground (arith, left-Delivers c ch [] s h)
rounds-Delivers c ch (r ∷ rs) s t h e = elim (Bool-cases (s.open_descriptors == 0)) [
  | inl closed ↦ ground (arith, left-Delivers c ch (r ∷ rs) s h)
  | inr open_yet ↦
      proceed-Delivers c ch r rs s t (round c r s) (λ u. rounds-Delivers c ch rs u t)
        (round-Keeps c r s h) (round-Advances c r ch s h) (rw (open_yet, rounds) at e)
]

begin-captured :
    (c : Settings) (fcntl_error : Option Text) (stop_at : ℕ) (ch : Channel)
    → (captured ch (begin c fcntl_error stop_at) ≡ [])
      × (is_open ch (begin c fcntl_error stop_at) ≡ true)
unfolding begin captured is_open
begin-captured c fcntl_error stop_at out = ground arith
begin-captured c fcntl_error stop_at err = ground arith

close_all-captured :
    (ch : Channel) (s : Loop)
    → (captured ch (close_all s) ≡ captured ch s) × ((close_all s).result ≡ s.result)
unfolding close_all captured
close_all-captured out s = (refl, refl)
close_all-captured err s = (refl, refl)

-- A loop that returns with no failure flag has captured, of standard output and of standard error
-- alike, exactly the bytes that the reads of the stream gave up to its end.
pub communicate_with_process-captured :
    (c : Settings) (fcntl_error : Option Text) (stop_at : ℕ) (rs : List Round) (s : Loop)
    (ch : Channel)
    → communicate_with_process c fcntl_error stop_at rs ≡ some s
    → has_failed s.result ≡ false
    → captured ch s ≡ stream ch rs
unfolding communicate_with_process
communicate_with_process-captured c fcntl_error stop_at rs s ch e clean =
    elim (Option-cases (rounds c rs (begin c fcntl_error stop_at))) [
      | inl unanswered ↦ ground (arith, unanswered)
      | inr (t, found) ↦
          let h = begin-IsConsistent c fcntl_error stop_at in
          let k = rounds-Delivers c ch rs _ t h found in
          ground (arith, found, k, close_all-captured ch t, begin-captured c fcntl_error stop_at ch)
    ]
