-- ===== src/Text/Decimal.antt =====
-- `std::to_string` of an unsigned number, and `std::from_chars` into a 32-bit `unsigned int`
-- that has to consume the whole text.
pub mod RoundTrip
use fedora_firewall_control.Common.{
  ℕ, zero, suc, ◌+◌, ◌-◌, ◌*◌, ◌/◌, ◌%◌, ◌^◌, ◌&&◌, Option, none, some, [], ◌∷◌, ◌++◌, all,
  is_empty, not, ltb, if◌then◌else◌,
}
use fedora_firewall_control.Text.{Text, is_digit}

abbrev digit : ℕ → ℕ
digit d = b'0' + d

print_digits : ℕ → ℕ → Text
print_digits zero n = []
print_digits (suc fuel) n =
    let high = print_digits fuel (n / 10) in
    if ltb n 10 then digit n ∷ [] else high ++ (digit (n % 10) ∷ [])

-- One round for each digit: `n + 1` rounds are enough.
unfoldable pub to_string : ℕ → Text
unfolding print_digits
to_string n = print_digits (suc n) n

read_digits : ℕ → Text → ℕ
read_digits acc [] = acc
read_digits acc (c ∷ cs) = read_digits (acc * 10 + (c - b'0')) cs

-- `none` on no digit, on any other byte, and on a value above `UINT_MAX`.
unfoldable pub from_chars : Text → Option ℕ
unfolding read_digits is_digit
from_chars s =
    if not (is_empty s) && all is_digit s && ltb (read_digits 0 s) (2 ^ 32)
    then some (read_digits 0 s)
    else none
