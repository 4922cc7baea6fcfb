-- ===== src/Terminal.antt =====
-- `sanitize_terminal_text` of src/ui/terminal_ui.cpp: what any value passes through before it is
-- shown. A byte's masks are written as quotients and remainders.
pub mod Displayable
pub mod Shown
pub mod Styles
use mathlib.Core.Option.{map as option_map}
use fedora_firewall_control.Common.{
  ℕ, zero, suc, ◌+◌, ◌-◌, ◌*◌, ◌/◌, ◌%◌, Bool, not, ◌&&◌, ◌||◌, Option, none, some, [], ◌∷◌, ◌++◌,
  map, ltb, leb, ◌==◌, if◌then◌else◌, length, take, drop,
}
use fedora_firewall_control.Text.{Text, lit}

unfoldable pub hex_digit : ℕ → ℕ
hex_digit n = if ltb n 10 then b'0' + n else b'A' + (n - 10)

unfoldable pub hex_escape : ℕ → Text
unfolding hex_digit
hex_escape byte = b'\\' ∷ b'x' ∷ hex_digit (byte / 16) ∷ hex_digit (byte % 16) ∷ []

unfoldable pub unicode_escape : ℕ → Text
unfolding hex_digit
unicode_escape codepoint =
    b'\\'
    ∷ b'u'
    ∷ hex_digit (codepoint / 4096 % 16)
    ∷ hex_digit (codepoint / 256 % 16)
    ∷ hex_digit (codepoint / 16 % 16)
    ∷ hex_digit (codepoint % 16)
    ∷ []

unfoldable pub terminal_format_codepoint : ℕ → Bool
terminal_format_codepoint codepoint =
    (leb 0x80 codepoint && leb codepoint 0x9f)
    || (leb 0x200b codepoint && leb codepoint 0x200f)
    || (leb 0x202a codepoint && leb codepoint 0x202e)
    || codepoint == 0x2060
    || (leb 0x2066 codepoint && leb codepoint 0x2069)
    || codepoint == 0xfeff

-- What a round of the loop appends, and the text that is left.
pub record Piece : Type 0 where
  pub emitted : Text
  pub rest : Text

abbrev pub is_parameter : ℕ → Bool
is_parameter c = (leb b'0' c && leb c b'9') || c == b';'

abbrev pub behind : Text → Piece → Piece
behind front p = record p { emitted = front ++ p.emitted }

-- The parameters of an SGR sequence and what follows its final `m`, if it has one.
unfoldable pub sgr_from : Text → Option Piece
sgr_from [] = none
sgr_from (c ∷ cs) =
    let later = option_map (behind (c ∷ [])) (sgr_from cs) in
    if is_parameter c
    then later
    else if c == b'm'
    then some (record { emitted = b'm' ∷ []; rest = cs })
    else none

-- Behind an escape byte.
unfoldable pub sgr : Text → Option Piece
unfolding sgr_from
sgr (b ∷ c ∷ cs) =
    if b == b'[' then option_map (behind (0x1b ∷ b'[' ∷ [])) (sgr_from (c ∷ cs)) else none
sgr _ = none

-- The continuation bytes, as many as are wanted; `none` where one is missing or is none.
unfoldable pub continue_codepoint : ℕ → ℕ → Text → Option ℕ
continue_codepoint zero codepoint cs = some codepoint
continue_codepoint (suc n) codepoint [] = none
continue_codepoint (suc n) codepoint (c ∷ cs) =
    let later = continue_codepoint n (codepoint * 64 + c % 64) cs in
    if c / 64 == 2 then later else none

abbrev pub escaped : ℕ → Text → Piece
escaped byte cs = record { emitted = hex_escape byte; rest = cs }

unfoldable pub is_scalar : ℕ → ℕ → Bool
is_scalar minimum codepoint = not (
    ltb codepoint minimum
    || ltb 0x10ffff codepoint
    || (leb 0xd800 codepoint && leb codepoint 0xdfff))

-- A lead byte with its bits of the code point, the number of further bytes and the least value.
unfoldable pub multibyte : ℕ → ℕ → ℕ → ℕ → Text → Piece
unfolding hex_escape unicode_escape continue_codepoint is_scalar terminal_format_codepoint
multibyte codepoint more minimum byte cs = elim (continue_codepoint more codepoint cs) [
  | none ↦ escaped byte cs
  | some whole ↦
      if not (is_scalar minimum whole)
      then escaped byte cs
      else if terminal_format_codepoint whole
      then record { emitted = unicode_escape whole; rest = drop more cs }
      else record { emitted = byte ∷ take more cs; rest = drop more cs }
]

-- A byte that starts no SGR sequence.
unfoldable pub plain_piece : ℕ → Text → Piece
unfolding multibyte hex_escape
plain_piece byte cs =
    if ltb byte 0x20 || byte == 0x7f
    then escaped byte cs
    else if ltb byte 0x80
    then record { emitted = byte ∷ []; rest = cs }
    else if byte / 32 == 6
    then multibyte (byte % 32) 1 0x80 byte cs
    else if byte / 16 == 14
    then multibyte (byte % 16) 2 0x800 byte cs
    else if byte / 8 == 30
    then multibyte (byte % 8) 3 0x10000 byte cs
    else escaped byte cs

unfoldable pub piece : ℕ → Text → Piece
unfolding plain_piece sgr
piece byte cs = elim (if byte == 0x1b then sgr cs else none) [
  | some p ↦ p
  | none ↦ plain_piece byte cs
]

-- The loop, on fuel.
unfoldable pub sanitize_from : ℕ → ℕ → Text → Text → Text
unfolding piece
sanitize_from zero maximum_bytes output text = output
sanitize_from (suc fuel) maximum_bytes output [] = output
sanitize_from (suc fuel) maximum_bytes output (byte ∷ cs) =
    let p = piece byte cs in
    let longer = sanitize_from fuel maximum_bytes (output ++ p.emitted) p.rest in
    if leb maximum_bytes (length output) then output ++ lit "...[truncated]" else longer

unfoldable pub sanitize_terminal_text : Text → ℕ → Text
unfolding sanitize_from
sanitize_terminal_text text maximum_bytes = sanitize_from (length text) maximum_bytes [] text
