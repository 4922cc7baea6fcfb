-- ===== src/Text/Words/Lines.antt =====
-- A line in front of a text is read first.
use fedora_firewall_control.Common.{
  ◌≡◌, ◌≢◌, refl, false, List, [], ◌∷◌, ◌++◌, arith, All, All-append,
}
use fedora_firewall_control.Text.{Text, is_space}
use fedora_firewall_control.Text.Words.{lines, lines_at}
use fedora_firewall_control.Text.Words.Joined.{IsWord, joined_words}

-- No byte of the text ends a line.
abbrev pub IsLine : Text → Type 0
IsLine s = All (λ c. c ≢ b'\n') s

lines_at-line :
    (s rest : Text) → IsLine s → lines_at b'\n' (s ++ (b'\n' ∷ rest)) ≡ s ∷ lines_at b'\n' rest
unfolding lines_at
lines_at-line [] rest h = refl
lines_at-line (c ∷ s) rest (h, k) = ground (arith, lines_at-line s rest k)

pub lines-line : (s rest : Text) → IsLine s → lines (s ++ (b'\n' ∷ rest)) ≡ s ∷ lines rest
unfolding lines
lines-line s rest h = lines_at-line s rest h

spaceless-IsLine : (s : Text) → All (λ b. is_space b ≡ false) s → IsLine s
unfolding is_space
spaceless-IsLine [] h = tt
spaceless-IsLine (c ∷ s) (h, k) = (λ e. ground arith, spaceless-IsLine s k)

pub IsWord-IsLine : (w : Text) → IsWord w → IsLine w
IsWord-IsLine [] h = tt
IsWord-IsLine (c ∷ s) h = spaceless-IsLine (c ∷ s) h

pub joined_words-IsLine : (ws : List Text) → All IsWord ws → IsLine (joined_words ws)
joined_words-IsLine [] h = tt
joined_words-IsLine (w ∷ []) (h, k) = IsWord-IsLine w h
joined_words-IsLine (w ∷ v ∷ ws) (h, k) =
    All-append (λ c. c ≢ b'\n') w (b' ' ∷ joined_words (v ∷ ws)) (IsWord-IsLine w h)
      (λ e. omega arith, joined_words-IsLine (v ∷ ws) k)
