-- ===== src/Text.antt =====
-- std::string as a list of bytes, with the operations of the standard library that the program
-- uses, and src/core/text_utils.cpp: `trim_copy`, `lowercase_copy`, `normalize_command`.
-- `none` stands for `std::string::npos`. The C locale is meant, as the runner sets it.
pub mod Search
pub mod Words
pub mod Order
pub mod Sorting
pub mod Decimal
pub mod Laws
use Prim.Native.Char.{code}
use Prim.Native.String
use Prim.Native.String.{String}
use fedora_firewall_control.Common.{
  ℕ, ◌+◌, Bool, true, false, ◌&&◌, ◌||◌, List, [], ◌∷◌, map, reverse, leb, ◌==◌, if◌then◌else◌,
}

abbrev pub Text : Type 0
Text = List ℕ

abbrev codes : String → Text
codes String.[] = []
codes (String.◌∷◌ c s) = code c ∷ codes s

-- A literal of the source. It is shut, so that statements keep the words.
unfoldable pub lit : String → Text
lit s = codes s

unfoldable pub text_eq : Text → Text → Bool
text_eq [] [] = true
text_eq (x ∷ xs) (y ∷ ys) = x == y && text_eq xs ys
text_eq _ _ = false

-- `std::isspace`
unfoldable pub is_space : ℕ → Bool
is_space c = c == b' ' || (leb 9 c && leb c 13)

unfoldable pub is_digit : ℕ → Bool
is_digit c = leb b'0' c && leb c b'9'

unfoldable pub is_alnum : ℕ → Bool
unfolding is_digit
is_alnum c = is_digit c || (leb b'a' c && leb c b'z') || (leb b'A' c && leb c b'Z')

-- `std::tolower`
unfoldable pub tolower : ℕ → ℕ
tolower c = if leb b'A' c && leb c b'Z' then c + 32 else c

-- Drops the leading bytes that satisfy a test.
unfoldable pub drop_while : (ℕ → Bool) → Text → Text
drop_while p [] = []
drop_while p (c ∷ cs) = let rest = drop_while p cs in if p c then rest else c ∷ cs

-- Both ends are found by `find_if_not`, the second from the back.
unfoldable pub trim_by : (ℕ → Bool) → Text → Text
unfolding drop_while
trim_by p s = reverse (drop_while p (reverse (drop_while p s)))

unfoldable pub trim_copy : Text → Text
unfolding trim_by is_space
trim_copy s = trim_by is_space s

unfoldable pub lowercase_copy : Text → Text
unfolding tolower
lowercase_copy s = map tolower s

unfoldable pub normalize_command : Text → Text
unfolding lowercase_copy trim_copy
normalize_command s = lowercase_copy (trim_copy s)
