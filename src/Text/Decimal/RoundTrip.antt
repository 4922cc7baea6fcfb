-- ===== src/Text/Decimal/RoundTrip.antt =====
-- A printed number is read back.
use fedora_firewall_control.Common.{
  ◌≡◌, ◌<◌, ◌+◌, ◌*◌, ◌/◌, ◌%◌, arith, [], ◌∷◌, ◌++◌, refl, ℕ, suc, zero, some, true, false, all,
  ◌-◌, ◌^◌, is_empty,
}
use fedora_firewall_control.Text.{Text, is_digit}
use fedora_firewall_control.Text.Decimal.{to_string, from_chars, print_digits, read_digits, digit}

read_digits-append :
    (acc : ℕ) (s : Text) (c : ℕ)
    → read_digits acc (s ++ (c ∷ [])) ≡ read_digits acc s * 10 + (c - b'0')
unfolding read_digits
read_digits-append acc [] c = refl
read_digits-append acc (x ∷ s) c = read_digits-append (acc * 10 + (x - b'0')) s c

read-print : (fuel n : ℕ) → n < fuel → read_digits 0 (print_digits fuel n) ≡ n
unfolding read_digits print_digits
read-print zero n h = absurd (omega arith)
read-print (suc fuel) n h = ground (
  arith,
  read_digits-append 0 (print_digits fuel (n / 10)) (digit (n % 10)),
  read-print fuel (n / 10),
)

all-append :
    (s : Text) (c : ℕ)
    → all is_digit s ≡ true
    → is_digit c ≡ true
    → all is_digit (s ++ (c ∷ [])) ≡ true
all-append [] c h k = ground arith
all-append (x ∷ s) c h k = ground (arith, all-append s c)

print-digits : (fuel n : ℕ) → all is_digit (print_digits fuel n) ≡ true
unfolding print_digits is_digit
print-digits zero n = refl
print-digits (suc fuel) n =
    ground
      (arith, all-append (print_digits fuel (n / 10)) (digit (n % 10)), print-digits fuel (n / 10))

snoc-not_empty : (s : Text) (c : ℕ) → is_empty (s ++ (c ∷ [])) ≡ false
snoc-not_empty [] c = refl
snoc-not_empty (x ∷ s) c = refl

print-not_empty : (fuel n : ℕ) → is_empty (print_digits (suc fuel) n) ≡ false
unfolding print_digits
print-not_empty fuel n =
    ground (arith, snoc-not_empty (print_digits fuel (n / 10)) (digit (n % 10)))

-- The decimal text of a number below 2 ^ 32 is read back as that number.
pub from_chars-to_string : (n : ℕ) → n < 2 ^ 32 → from_chars (to_string n) ≡ some n
unfolding from_chars to_string
from_chars-to_string n h =
    ground (arith, read-print (suc n) n (omega arith), print-digits (suc n) n, print-not_empty n n)
