-- ===== src/Network/Hops.antt =====
-- `parse_traceroute_hops` of src/network/network_path_parser.cpp.
use fedora_firewall_control.Common.{
  ℕ, Bool, true, false, not, ◌||◌, Option, none, some, List, [], ◌∷◌, ◌==◌, if◌then◌else◌,
}
use fedora_firewall_control.Text.{Text, lit, text_eq}
use fedora_firewall_control.Text.Words.{lines, split_words}
use fedora_firewall_control.Text.Decimal.{from_chars}
use fedora_firewall_control.Network.Address.{
  classify_network_address, NetworkAddressScope, AddressParser, unknown,
}

pub record TracerouteHop : Type 0 where
  pub number : ℕ
  pub address : Text
  pub scope : NetworkAddressScope

abbrev is_known : NetworkAddressScope → Bool
is_known unknown = false
is_known _ = true

hop_at : AddressParser → ℕ → Text → Option TracerouteHop
hop_at net number address =
    let scope = classify_network_address net address in
    if number == 0 || not (is_known scope)
    then none
    else some (record { number = number; address = address; scope = scope })

-- A line needs a hop number and an address.
unfoldable pub hop_of : AddressParser → List Text → Option TracerouteHop
unfolding hop_at from_chars text_eq classify_network_address
hop_of net (hop_number ∷ address ∷ more) =
    if text_eq address (lit "*")
    then none
    else elim (from_chars hop_number) [ none ↦ none | some number ↦ hop_at net number address ]
hop_of net _ = none

hops_of : AddressParser → List Text → List TracerouteHop
hops_of net [] = []
hops_of net (line ∷ rest) = elim (hop_of net (split_words line)) [
  | none ↦ hops_of net rest
  | some hop ↦ hop ∷ hops_of net rest
]

unfoldable pub parse_traceroute_hops : AddressParser → Text → List TracerouteHop
unfolding hops_of hop_of split_words lines
parse_traceroute_hops net traceroute_output = hops_of net (lines traceroute_output)
