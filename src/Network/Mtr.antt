-- ===== src/Network/Mtr.antt =====
-- `parse_mtr_hops` of src/network/network_path_parser.cpp. `strtod` and the comparisons of a
-- `double` are the record `Floats`.
pub mod Sound
use fedora_firewall_control.Text.Decimal.{from_chars}
use fedora_firewall_control.Network.Address.{
  classify_network_address, NetworkAddressScope, AddressParser, unknown,
}
use fedora_firewall_control.Common.{
  ℕ, ◌+◌, ◌-◌, Bool, true, false, not, ◌&&◌, ◌||◌, Option, none, some, List, [], ◌∷◌, ◌==◌,
  if◌then◌else◌, length, is_empty, take, ◌>>=◌,
}
use fedora_firewall_control.Text.{Text, lit, text_eq, is_digit}
use fedora_firewall_control.Text.Search.{find_char}
use fedora_firewall_control.Text.Words.{lines, split_words}

-- `strtod` gives the value and how many bytes it took. The tests are `isfinite(x)`, `x < 0.0`,
-- `x > 100.0` and `x != 100.0`.
pub record Floats (D : Type 0) : Type 0 where
  pub strtod : Text → D × ℕ
  pub is_finite : D → Bool
  pub is_below_zero : D → Bool
  pub is_above_hundred : D → Bool
  pub is_hundred : D → Bool

pub record PathStabilityHop (D : Type 0) : Type 0 where
  pub number : ℕ
  pub address : Text
  pub scope : NetworkAddressScope
  pub response_loss_percent : Option D

abbrev pub is_unknown : NetworkAddressScope → Bool
is_unknown unknown = true
is_unknown _ = false

-- `loss.back()`, for a text that is not empty
unfoldable pub ends_with_percent : Text → Bool
ends_with_percent [] = false
ends_with_percent (c ∷ []) = c == b'%'
ends_with_percent (c ∷ c' ∷ cs) = ends_with_percent (c' ∷ cs)

-- The loop: whether a decimal point was seen, and the bytes in front of the percent sign.
unfoldable pub decimal_bytes : Bool → Text → Bool
unfolding is_digit
decimal_bytes seen [] = true
decimal_bytes seen (c ∷ cs) =
    let rest = decimal_bytes seen cs in
    let after_point = decimal_bytes true cs in
    if is_digit c then rest else if c == b'.' && not seen then after_point else false

-- Where the number ends.
unfoldable pub number_end : Text → ℕ
unfolding ends_with_percent
number_end loss = if ends_with_percent loss then length loss - 1 else length loss

unfoldable pub is_decimal_loss_field : Text → Bool
unfolding decimal_bytes number_end
is_decimal_loss_field loss =
    not (number_end loss == 0) && decimal_bytes false (take (number_end loss) loss)

-- The part of an ordinal in front of its first dot, as a number that is not 0.
unfoldable pub ordinal_number : Text → Option ℕ
unfolding find_char from_chars
ordinal_number ordinal = elim (find_char ordinal b'.') [
  | none ↦ none
  | some dot ↦ elim (from_chars (take dot ordinal)) [
    | none ↦ none
    | some number ↦ if number == 0 then none else some number
  ]
]

-- `continue` or `push_back`
unfoldable pub add_hop :
    {D : Type 0}
    → Option (PathStabilityHop D)
    → List (PathStabilityHop D)
    → List (PathStabilityHop D)
add_hop none hops = hops
add_hop (some hop) hops = hop ∷ hops

module _ {D : Type 0} (f : Floats D) where
  -- The value of a loss field, if it is a percentage.
  unfoldable pub loss_percent : Text → Option D
  unfolding is_decimal_loss_field ends_with_percent
  loss_percent loss =
      let (value, end) = f.strtod loss in
      if is_empty loss || not (is_decimal_loss_field loss)
      then none
      else if not (end == length loss || (end + 1 == length loss && ends_with_percent loss))
          || not (f.is_finite value)
          || f.is_below_zero value
          || f.is_above_hundred value
      then none
      else some value

  unfoldable pub mtr_hop : AddressParser → ℕ → Text → D → Option (PathStabilityHop D)
  unfolding classify_network_address text_eq
  mtr_hop net number address value =
      let scope = classify_network_address net address in
      if (text_eq address (lit "???") && not (f.is_hundred value))
        || (not (text_eq address (lit "???")) && is_unknown scope)
      then none
      else some (record {
        number = number;
        address = address;
        scope = scope;
        response_loss_percent = some value;
      })

  unfoldable pub mtr_hop_of : AddressParser → List Text → Option (PathStabilityHop D)
  unfolding ordinal_number loss_percent mtr_hop
  mtr_hop_of net (ordinal ∷ address ∷ loss ∷ more) = do
    number ← ordinal_number ordinal
    value ← loss_percent loss
    mtr_hop net number address value
  mtr_hop_of net _ = none

  unfoldable pub mtr_hops_of : AddressParser → List Text → List (PathStabilityHop D)
  unfolding mtr_hop_of split_words add_hop
  mtr_hops_of net [] = []
  mtr_hops_of net (line ∷ rest) = add_hop (mtr_hop_of net (split_words line)) (mtr_hops_of net rest)

  unfoldable pub parse_mtr_hops : AddressParser → Text → List (PathStabilityHop D)
  unfolding mtr_hops_of lines
  parse_mtr_hops net mtr_output = mtr_hops_of net (lines mtr_output)
