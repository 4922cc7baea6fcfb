-- ===== src/Text/Search.antt =====
-- `find`, `rfind`, `substr`, `starts_with` and the character searches of std::string.
use fedora_firewall_control.Common.{
  ℕ, suc, ◌+◌, Bool, true, false, not, ◌&&◌, Option, none, some, [], ◌∷◌, take, drop, any, ◌==◌,
  if◌then◌else◌,
}
use mathlib.Core.Option
use fedora_firewall_control.Text.{Text}

unfoldable pub starts_with : Text → Text → Bool
starts_with s [] = true
starts_with [] (p ∷ ps) = false
starts_with (c ∷ cs) (p ∷ ps) = c == p && starts_with cs ps

-- `s.find(needle)`
unfoldable pub find : Text → Text → Option ℕ
unfolding starts_with
find [] needle = if starts_with [] needle then some 0 else none
find (c ∷ cs) needle =
    let rest = Option.map suc (find cs needle) in
    if starts_with (c ∷ cs) needle then some 0 else rest

unfoldable pub contains_text : Text → Text → Bool
unfolding find
contains_text s needle = elim (find s needle) [ none ↦ false | some i ↦ true ]

-- `s.find(c)` and `s.rfind(c)` for a byte
unfoldable pub find_char : Text → ℕ → Option ℕ
find_char [] c = none
find_char (x ∷ xs) c = let rest = Option.map suc (find_char xs c) in if x == c then some 0 else rest

unfoldable pub rfind_char : Text → ℕ → Option ℕ
rfind_char [] c = none
rfind_char (x ∷ xs) c = elim (rfind_char xs c) [
  | some i ↦ some (suc i)
  | none ↦ if x == c then some 0 else none
]

-- `s.find(c, from)`
unfoldable pub find_char_from : Text → ℕ → ℕ → Option ℕ
unfolding find_char
find_char_from s c from = Option.map (λ i. from + i) (find_char (drop from s) c)

-- `s.find_first_not_of(" \t") != npos`
unfoldable pub has_other : (ℕ → Bool) → Text → Bool
has_other p s = any (λ c. not (p c)) s

-- `s.substr(from, count)` and `s.substr(from)`
unfoldable pub substr : Text → ℕ → ℕ → Text
substr s from count = take count (drop from s)

-- The bytes before the first one that satisfies a test, and those from it on.
unfoldable pub take_until : (ℕ → Bool) → Text → Text
take_until p [] = []
take_until p (c ∷ cs) = let rest = take_until p cs in if p c then [] else c ∷ rest

unfoldable pub drop_until : (ℕ → Bool) → Text → Text
drop_until p [] = []
drop_until p (c ∷ cs) = let rest = drop_until p cs in if p c then c ∷ cs else rest
