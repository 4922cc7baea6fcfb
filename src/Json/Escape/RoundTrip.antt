-- ===== src/Json/Escape/RoundTrip.antt =====
-- A reader of JSON strings, independent of the writer, gets every escaped text back.
use fedora_firewall_control.Common.{
  ℕ, zero, suc, ◌+◌, ◌-◌, ◌*◌, ◌≡◌, refl, ◌∙◌, ◌&&◌, ◌||◌, Option, none, some, [], ◌∷◌, ◌++◌, arith,
  ltb, leb, ◌==◌, if◌then◌else◌,
}
use fedora_firewall_control.Text.{Text}
use fedora_firewall_control.Json.Escape.{escape_byte, escape}

-- Inside a string: at a character, behind a backslash, or inside `\uXXXX` with the digits to come
-- and the value so far.
pub data Mode : Type 0 where
  plain backslash : Mode
  hex : ℕ → ℕ → Mode

unescaped : ℕ → Option ℕ
unescaped c =
    if c == b'"' || c == b'\\' || c == b'/'
    then some c
    else if c == b'b'
    then some 8
    else if c == b'f'
    then some 12
    else if c == b'n'
    then some b'\n'
    else if c == b'r'
    then some b'\r'
    else if c == b't'
    then some b'\t'
    else none

hex_value : ℕ → Option ℕ
hex_value c =
    if leb b'0' c && leb c b'9'
    then some (c - b'0')
    else if leb b'a' c && leb c b'f'
    then some (c - b'a' + 10)
    else if leb b'A' c && leb c b'F'
    then some (c - b'A' + 10)
    else none

abbrev push : ℕ → Option Text → Option Text
push c none = none
push c (some s) = some (c ∷ s)

-- A raw quote and a raw control character are refused.
unfoldable pub read : Mode → Text → Option Text
unfolding unescaped hex_value
read plain [] = some []
read backslash [] = none
read (hex n v) [] = none
read plain (c ∷ cs) =
    let escape_follows = read backslash cs in
    let taken = push c (read plain cs) in
    if c == b'"' || ltb c 0x20 then none else if c == b'\\' then escape_follows else taken
read backslash (c ∷ cs) =
    let digits = read (hex 3 0) cs in
    let later = read plain cs in
    if c == b'u' then digits else elim (unescaped c) [ none ↦ none | some d ↦ push d later ]
read (hex zero v) (c ∷ cs) =
    let later = read plain cs in
    elim (hex_value c) [ none ↦ none | some d ↦ push (v * 16 + d) later ]
read (hex (suc n) v) (c ∷ cs) = elim (hex_value c) [
  | none ↦ none
  | some d ↦ read (hex n (v * 16 + d)) cs
]

read-escape_byte :
    (c : ℕ) (rest : Text) → read plain (escape_byte c ++ rest) ≡ push c (read plain rest)
unfolding read escape_byte
read-escape_byte c rest = ground arith

-- Every text that `escape` writes is a valid JSON string body, and reads back as that text.
pub read-escape : (s : Text) → read plain (escape s) ≡ some s
unfolding escape
read-escape [] = unfold read in refl
read-escape (c ∷ s) = read-escape_byte c (escape s) ∙ rw (read-escape s) refl
