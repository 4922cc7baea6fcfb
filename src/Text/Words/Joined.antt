-- ===== src/Text/Words/Joined.antt =====
-- Words that were joined by spaces are split again.
use fedora_firewall_control.Common.{◌≡◌, refl, false, List, [], ◌∷◌, ◌++◌, arith, All, ℕ}
use fedora_firewall_control.Text.{Text, is_space}
use fedora_firewall_control.Text.Words.{split_words}

-- At least one byte, and no space among them.
abbrev pub IsWord : Text → Type 0
IsWord [] = ⊥
IsWord (c ∷ cs) = All (λ b. is_space b ≡ false) (c ∷ cs)

split_words-word :
    (c : ℕ) (cs rest : Text)
    → All (λ b. is_space b ≡ false) (c ∷ cs)
    → split_words (c ∷ (cs ++ (b' ' ∷ rest))) ≡ (c ∷ cs) ∷ split_words rest
unfolding split_words is_space
split_words-word c [] rest (h, k) = ground arith
split_words-word c (d ∷ cs) rest (h, k) = ground (arith, split_words-word d cs rest k)

split_words-last :
    (c : ℕ) (cs : Text)
    → All (λ b. is_space b ≡ false) (c ∷ cs)
    → split_words (c ∷ cs) ≡ (c ∷ cs) ∷ []
unfolding split_words
split_words-last c [] (h, k) = ground arith
split_words-last c (d ∷ cs) (h, k) = ground (arith, split_words-last d cs k)

-- `firewall-cmd` separates the values of a line by spaces.
abbrev pub joined_words : List Text → Text
joined_words [] = []
joined_words (w ∷ []) = w
joined_words (w ∷ v ∷ ws) = w ++ (b' ' ∷ joined_words (v ∷ ws))

split_words-empty : split_words [] ≡ []
unfolding split_words
split_words-empty = refl

-- Words joined by single spaces are split into the same words.
pub split_words-joined_words : (ws : List Text) → All IsWord ws → split_words (joined_words ws) ≡ ws
split_words-joined_words [] h = split_words-empty
split_words-joined_words ([] ∷ ws) (h, k) = absurd h
split_words-joined_words ((c ∷ cs) ∷ []) (h, k) = split_words-last c cs h
split_words-joined_words ((c ∷ cs) ∷ v ∷ ws) (h, k) =
    cc (split_words-word c cs (joined_words (v ∷ ws)) h, split_words-joined_words (v ∷ ws) k)

pub split_words-space : (text : Text) → split_words (b' ' ∷ text) ≡ split_words text
unfolding split_words is_space
split_words-space text = refl
