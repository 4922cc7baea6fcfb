-- ===== src/Json/Escape.antt =====
-- `escape` and `quote` of src/ui/dashboard_json_support.hpp.
pub mod RoundTrip
use fedora_firewall_control.Common.{ℕ, ◌+◌, ◌-◌, ◌/◌, ◌%◌, [], ◌∷◌, ◌++◌, ltb, ◌==◌, if◌then◌else◌}
use fedora_firewall_control.Text.{Text}

-- A hexadecimal digit, in lower case as `std::hex` prints it.
unfoldable pub hex_digit : ℕ → ℕ
hex_digit d = if ltb d 10 then b'0' + d else b'a' + (d - 10)

abbrev escaped : ℕ → Text
escaped c = b'\\' ∷ c ∷ []

-- What the switch writes for one byte.
unfoldable pub escape_byte : ℕ → Text
unfolding hex_digit
escape_byte c =
    if c == b'"'
    then escaped b'"'
    else if c == b'\\'
    then escaped b'\\'
    else if c == 8
    then escaped b'b'
    else if c == 12
    then escaped b'f'
    else if c == b'\n'
    then escaped b'n'
    else if c == b'\r'
    then escaped b'r'
    else if c == b'\t'
    then escaped b't'
    else if ltb c 0x20
    then b'\\' ∷ b'u' ∷ b'0' ∷ b'0' ∷ hex_digit (c / 16) ∷ hex_digit (c % 16) ∷ []
    else c ∷ []

unfoldable pub escape : Text → Text
unfolding escape_byte
escape [] = []
escape (c ∷ cs) = escape_byte c ++ escape cs

unfoldable pub quote : Text → Text
unfolding escape
quote value = b'"' ∷ (escape value ++ b'"' ∷ [])
