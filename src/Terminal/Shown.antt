-- ===== src/Terminal/Shown.antt =====
-- The loop of `sanitize_terminal_text` of src/ui/terminal_ui.cpp: its output and its end.
use fedora_firewall_control.Terminal.Displayable.{
  IsDisplayable, byte, end, IsDisplayable-append, piece-IsSound,
}
use fedora_firewall_control.Common.{
  ℕ, zero, suc, ◌+◌, ◌≤◌, ◌<◌, ◌≡◌, refl, inl, inr, true, ◌&&◌, [], ◌∷◌, ◌++◌, arith, ltb, leb,
  Bool-cases, length, all, All,
}
use fedora_firewall_control.Terminal.{piece, sanitize_from, sanitize_terminal_text}
use fedora_firewall_control.Text.{Text, lit}

IsDisplayable-printable : (t : Text) → all (λ c. leb 32 c && ltb c 127) t ≡ true → IsDisplayable t
IsDisplayable-printable [] h = end
IsDisplayable-printable (c ∷ cs) h =
    byte c (ground (arith, h)) (λ e. ground (arith, h, e))
      (IsDisplayable-printable cs (ground (arith, h)))

truncated-IsDisplayable : IsDisplayable (lit "...[truncated]")
unfolding lit
truncated-IsDisplayable = IsDisplayable-printable (lit "...[truncated]") refl

sanitize_from-IsDisplayable :
    (fuel maximum_bytes : ℕ) (output text : Text)
    → All (λ c. c < 256) text
    → IsDisplayable output
    → IsDisplayable (sanitize_from fuel maximum_bytes output text)
unfolding sanitize_from
sanitize_from-IsDisplayable zero m output text k h = h
sanitize_from-IsDisplayable (suc fuel) m output [] k h = h
sanitize_from-IsDisplayable (suc fuel) m output (c ∷ cs) (b, k) h =
    let p = piece-IsSound c cs b k in
    elim (Bool-cases (leb m (length output))) [
      | inl full ↦ rw (full, sanitize_from) (IsDisplayable-append h truncated-IsDisplayable)
      | inr room ↦
          rw (room, sanitize_from)
            (sanitize_from-IsDisplayable fuel m (output ++ (piece c cs).emitted) (piece c cs).rest
              p.clean (IsDisplayable-append h p.displayable))
    ]

-- Whatever bytes a value has, what is shown of it holds no control byte and no DEL, but for the
-- escape byte of a whole SGR sequence, which only changes the rendition.
pub sanitize_terminal_text-IsDisplayable :
    (text : Text) (maximum_bytes : ℕ)
    → All (λ c. c < 256) text
    → IsDisplayable (sanitize_terminal_text text maximum_bytes)
unfolding sanitize_terminal_text
sanitize_terminal_text-IsDisplayable text m k =
    sanitize_from-IsDisplayable (length text) m [] text k end

sanitize_from-enough :
    (f g maximum_bytes : ℕ) (output text : Text)
    → All (λ c. c < 256) text
    → length text ≤ f
    → length text ≤ g
    → sanitize_from f maximum_bytes output text ≡ sanitize_from g maximum_bytes output text
unfolding sanitize_from
sanitize_from-enough zero zero m output text k a b = refl
sanitize_from-enough zero (suc g) m output [] k a b = refl
sanitize_from-enough zero (suc g) m output (c ∷ cs) k a b = absurd (omega arith)
sanitize_from-enough (suc f) zero m output [] k a b = refl
sanitize_from-enough (suc f) zero m output (c ∷ cs) k a b = absurd (omega arith)
sanitize_from-enough (suc f) (suc g) m output [] k a b = refl
sanitize_from-enough (suc f) (suc g) m output (c ∷ cs) (h, k) a b =
    let p = piece-IsSound c cs h k in
    ground (
      arith,
      sanitize_from-enough f g m (output ++ (piece c cs).emitted) (piece c cs).rest p.clean
          (omega (arith, p.shorter)) (omega (arith, p.shorter)),
    )

-- The loop ends: the length of the text is fuel enough, since each round takes a byte at least.
pub sanitize_terminal_text-fuel :
    (text : Text) (maximum_bytes extra : ℕ)
    → All (λ c. c < 256) text
    → sanitize_from (length text + extra) maximum_bytes [] text
      ≡ sanitize_terminal_text text maximum_bytes
unfolding sanitize_terminal_text
sanitize_terminal_text-fuel text m extra k =
    sanitize_from-enough (length text + extra) (length text) m [] text k (omega arith) (omega arith)
