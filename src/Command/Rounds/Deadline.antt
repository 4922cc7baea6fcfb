-- ===== src/Command/Rounds/Deadline.antt =====
-- The clock of the loop of src/core/command_runner.cpp, and when the loop ends.
use fedora_firewall_control.Command.Communicate.{
  receive, serve_output, send, serve_input, Revents, ReadResult, WriteResult, Ready, Round,
  Settings, Loop, Channel, bytes, end_of_file, read_interrupted, read_failed, out, err, Poll, ready,
  poll_failed, poll_interrupted,
}
use fedora_firewall_control.Command.Rounds.{
  serve, round, Progress, running, ended, begin, millisecond, wait_milliseconds, close_all, expire,
  after_poll, proceed, rounds, communicate_with_process,
}
use fedora_firewall_control.Common.{
  ℕ, ◌+◌, ◌≤◌, ◌<◌, ◌≡◌, true, false, List, [], ◌∷◌, arith, Bool-cases, ◌*◌, refl, ◌≢◌, ◌⊎◌, inl,
  inr, ◌&&◌, Option, none, some, leb, ◌==◌, if◌then◌else◌, Option-cases,
}
use fedora_firewall_control.Text.{Text}

abbrev pub IsTimely : ℕ → ℕ → ℕ → List Round → Type 0
IsTimely period slack start [] = Unit
IsTimely period slack start (r ∷ rs) =
    (start ≤ r.now)
    × (r.now ≤ start + period)
    × (r.stop_at ≤ r.now + slack)
    × IsTimely period slack r.now rs

-- The start of the last round.
abbrev pub last_start : ℕ → List Round → ℕ
last_start start [] = start
last_start start (r ∷ rs) = last_start r.now rs

record IsBounded (c : Settings) (period slack start : ℕ) (s : Loop) : Type 0 where
  waiting : s.terminated ≡ false → start < c.deadline
  draining :
      s.terminated ≡ true → s.drain_deadline ≤ c.deadline + period + slack + c.pipe_drain_grace

-- A handler stops the process by this round's clock, or not at all.
record Stops (c : Settings) (stop_at : ℕ) (s t : Loop) : Type 0 where
  stays : s.terminated ≡ true → (t.terminated ≡ true) × (t.drain_deadline ≡ s.drain_deadline)
  starts :
      s.terminated ≡ false → t.terminated ≡ true → t.drain_deadline ≡ stop_at + c.pipe_drain_grace

Stops-trans :
    (c : Settings) (stop_at : ℕ) (s t u : Loop)
    → Stops c stop_at s t
    → Stops c stop_at t u
    → Stops c stop_at s u
Stops-trans c stop_at s t u h k = ground (arith, Bool-cases t.terminated)

module _ (c : Settings) (stop_at : ℕ) where
  receive-Stops :
      (ch : Channel) (r : ReadResult) (s : Loop) → Stops c stop_at s (receive c stop_at ch r s)
  unfolding receive
  receive-Stops out (bytes b bs) s = ground arith
  receive-Stops err (bytes b bs) s = ground arith
  receive-Stops out end_of_file s = ground arith
  receive-Stops err end_of_file s = ground arith
  receive-Stops ch read_interrupted s = ground arith
  receive-Stops out (read_failed why) s = ground arith
  receive-Stops err (read_failed why) s = ground arith

  serve_output-Stops :
      (ch : Channel) (e : Revents) (r : ReadResult) (s : Loop)
      → Stops c stop_at s (serve_output c stop_at ch e r s)
  unfolding serve_output
  serve_output-Stops out e r s = ground (arith, receive-Stops out r s)
  serve_output-Stops err e r s = ground (arith, receive-Stops err r s)

  send-Stops : (w : WriteResult) (s : Loop) → Stops c stop_at s (send c w s)
  unfolding send
  send-Stops w s = ground arith

  serve_input-Stops :
      (e : Revents) (w : WriteResult) (s : Loop) → Stops c stop_at s (serve_input c stop_at e w s)
  unfolding serve_input
  serve_input-Stops e w s = ground (arith, send-Stops w s)

  serve-Stops : (y : Ready) (s : Loop) → Stops c stop_at s (serve c stop_at y s)
  unfolding serve
  serve-Stops y s =
      let s1 = serve_output c stop_at out y.out_events y.out_read s in
      let s2 = serve_output c stop_at err y.err_events y.err_read s1 in
      Stops-trans c stop_at s s1 _ (serve_output-Stops out y.out_events y.out_read s) (
        Stops-trans c stop_at s1 s2 _ (serve_output-Stops err y.err_events y.err_read s1)
          (serve_input-Stops y.in_events y.in_write s2))

module _ (c : Settings) (period slack : ℕ) where
  abbrev limit : ℕ
  limit = c.deadline + period + slack + c.pipe_drain_grace

  abbrev Goes : ℕ → Progress → Type 0
  Goes now (running t) = IsBounded c period slack now t × (now < limit)
  Goes now (ended t) = Unit

  expire-IsBounded :
      (r : Round) (s : Loop) (start : ℕ)
      → r.now ≤ start + period
      → r.stop_at ≤ r.now + slack
      → IsBounded c period slack start s
      → IsBounded c period slack r.now (expire c r s)
  unfolding expire
  expire-IsBounded r s start a b h = ground arith

  Stops-IsBounded :
      (now stop_at : ℕ) (s t : Loop)
      → stop_at ≤ now + slack
      → Stops c stop_at s t
      → IsBounded c period slack now s
      → IsBounded c period slack now t
  Stops-IsBounded now stop_at s t a k h = ground (arith, Bool-cases s.terminated)

  after_poll-Goes :
      (now stop_at : ℕ) (p : Poll) (s : Loop)
      → stop_at ≤ now + slack
      → now < limit
      → IsBounded c period slack now s
      → Goes now (after_poll c stop_at p s)
  unfolding after_poll
  after_poll-Goes now stop_at (poll_failed why) s a b h = tt
  after_poll-Goes now stop_at poll_interrupted s a b h = (h, b)
  after_poll-Goes now stop_at (ready y) s a b h =
      (Stops-IsBounded now stop_at s _ a (serve-Stops c stop_at y s) h, b)

  before_limit :
      (now : ℕ) (s : Loop)
      → IsBounded c period slack now s
      → (s.terminated && leb s.drain_deadline now) ≡ false
      → now < limit
  before_limit now s h e = ground arith

  round-Goes :
      (r : Round) (s : Loop) (start : ℕ)
      → r.now ≤ start + period
      → r.stop_at ≤ r.now + slack
      → IsBounded c period slack start s
      → Goes r.now (round c r s)
  unfolding round
  round-Goes r s start a b h =
      let t = expire c r s in
      let k = expire-IsBounded r s start a b h in
      elim (Bool-cases (t.terminated && leb t.drain_deadline r.now)) [
        | inl late ↦ rw late tt
        | inr early ↦
            rw early (after_poll-Goes r.now r.stop_at r.polled t b (before_limit r.now t k early) k)
      ]

  proceed-ends :
      (rs : List Round) (p : Progress) (now : ℕ)
      → IsTimely period slack now rs
      → limit ≤ last_start now rs
      → ((s : Loop) (start : ℕ)
          → IsTimely period slack start rs
          → IsBounded c period slack start s
          → start < limit
          → limit ≤ last_start start rs
          → rounds c rs s ≢ none)
      → Goes now p
      → proceed (rounds c rs) p ≢ none
  unfolding proceed
  proceed-ends rs (running s) now t b keep (h, a) = keep s now t h a b
  proceed-ends rs (ended s) now t b keep h = ground arith

  rounds-ends :
      (rs : List Round) (s : Loop) (start : ℕ)
      → IsTimely period slack start rs
      → IsBounded c period slack start s
      → start < limit
      → limit ≤ last_start start rs
      → rounds c rs s ≢ none
  unfolding rounds
  rounds-ends [] s start t h a b = absurd (omega arith)
  rounds-ends (r ∷ rs) s start (t0, t1, t2, t3) h a b =
      elim (Bool-cases (s.open_descriptors == 0)) [
        | inl closed ↦ rw (closed, rounds) (ground arith)
        | inr open_yet ↦
            rw (open_yet, rounds)
              (proceed-ends rs (round c r s) r.now t3 b (rounds-ends rs)
                (round-Goes r s start t1 t2 h))
      ]

begin-IsBounded :
    (c : Settings) (fcntl_error : Option Text) (period slack start stop_at : ℕ)
    → start < c.deadline
    → stop_at ≤ start + slack
    → IsBounded c period slack start (begin c fcntl_error stop_at)
unfolding begin
begin-IsBounded c fcntl_error period slack start stop_at a b = ground arith

-- The loop returns. Let it start before the deadline, at `start`, and let each round start at most
-- `period` after the one before and read the clock again within `slack`. Then once a round starts
-- `period + slack` and the grace after the deadline, or later, the loop has a result.
pub communicate_with_process-returns :
    (c : Settings) (fcntl_error : Option Text) (period slack start stop_at : ℕ) (rs : List Round)
    → start < c.deadline
    → stop_at ≤ start + slack
    → IsTimely period slack start rs
    → c.deadline + period + slack + c.pipe_drain_grace ≤ last_start start rs
    → (s : Loop) × (communicate_with_process c fcntl_error stop_at rs ≡ some s)
unfolding communicate_with_process
communicate_with_process-returns c fcntl_error period slack start stop_at rs a b t l =
    elim (Option-cases (rounds c rs (begin c fcntl_error stop_at))) [
      | inl unanswered ↦ absurd (
          rounds-ends c period slack rs _ start t
            (begin-IsBounded c fcntl_error period slack start stop_at a b) (omega arith) l
            unanswered)
      | inr (s, found) ↦ (close_all s, rw (found, communicate_with_process) refl)
    ]

-- `poll` is asked to wait for at least a millisecond, and for at most a second before the process
-- is stopped; beyond that first millisecond it is not asked to wait past the deadline that counts.
pub wait_milliseconds_bounds :
    (c : Settings) (now : ℕ) (s : Loop)
    → (1 ≤ wait_milliseconds c now s)
      × (s.terminated ≡ false → wait_milliseconds c now s ≤ 1000)
      × ((wait_milliseconds c now s ≡ 1)
          ⊎ (now + wait_milliseconds c now s * millisecond
              ≤ (if s.terminated then s.drain_deadline else c.deadline)))
unfolding wait_milliseconds
wait_milliseconds_bounds c now s = (ground arith, ground arith, ground arith)
