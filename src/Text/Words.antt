-- ===== src/Text/Words.antt =====
-- `std::getline` over a stream of text, and `>>` into words: `split_words` of
-- src/firewall/firewall_state.cpp.
pub mod Joined
pub mod Lines
use fedora_firewall_control.Common.{ℕ, Bool, false, not, List, [], ◌∷◌, ◌==◌, if◌then◌else◌}
use fedora_firewall_control.Text.{Text, is_space}

abbrev pub cons_head : ℕ → List Text → List Text
cons_head c [] = (c ∷ []) ∷ []
cons_head c (w ∷ ws) = (c ∷ w) ∷ ws

-- The lines that a loop over `std::getline(input, line, mark)` reads.
unfoldable pub lines_at : ℕ → Text → List Text
lines_at mark [] = []
lines_at mark (c ∷ cs) =
    let rest = lines_at mark cs in if c == mark then [] ∷ rest else cons_head c rest

unfoldable pub lines : Text → List Text
unfolding lines_at
lines s = lines_at b'\n' s

starts_word : Text → Bool
starts_word [] = false
starts_word (c ∷ cs) = not (is_space c)

unfoldable pub split_words : Text → List Text
unfolding starts_word is_space
split_words [] = []
split_words (c ∷ cs) =
    let rest = split_words cs in
    if is_space c then rest else if starts_word cs then cons_head c rest else (c ∷ []) ∷ rest
