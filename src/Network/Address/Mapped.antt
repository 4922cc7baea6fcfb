-- ===== src/Network/Address/Mapped.antt =====
-- IPv4 addresses inside IPv6 ones, in src/network/network_address.cpp.
use fedora_firewall_control.Common.{
  ◌≡◌, ◌≢◌, arith, List, ℕ, suc, some, none, refl, Option, take, drop,
}
use fedora_firewall_control.Text.{Text}
use fedora_firewall_control.Network.Address.{
  AddressParser, scope_v4, classify, classify_network_address, mapped_text,
}

-- An address that is no IPv4 text but an IPv6 address holding an IPv4 one is classified as the IPv4
-- address, if the text that the C library prints for that one is read by it as IPv4.
pub classify_network_address-mapped :
    (net : AddressParser) (address mapped : Text) (bytes : List ℕ) (value : ℕ)
    → net.parse_v4 address ≡ none
    → net.parse_v6 address ≡ some bytes
    → mapped_text net bytes ≡ some mapped
    → net.parse_v4 mapped ≡ some value
    → classify_network_address net address ≡ scope_v4 value
unfolding classify_network_address classify
classify_network_address-mapped net address mapped bytes value h k m v = ground arith

module _ (net : AddressParser)
    (reads : (bytes : List ℕ) (text : Text)
      → net.print_v4 bytes ≡ some text
      → net.parse_v4 text ≢ none) where
  mapped-read :
      (bytes : List ℕ) (text : Text) → mapped_text net bytes ≡ some text → net.parse_v4 text ≢ none
  unfolding mapped_text
  mapped-read bytes text h = ground (arith, reads (take 4 (drop 12 bytes)) text)

  module _ (fuel : ℕ) (address : Text) where
    on_mapped :
        (bytes : List ℕ) (m : Option Text)
        → net.parse_v6 address ≡ some bytes
        → mapped_text net bytes ≡ m
        → classify (suc (suc fuel)) net address ≡ classify 2 net address
    unfolding classify
    on_mapped bytes none h k = ground arith
    on_mapped bytes (some text) h k = ground (arith, mapped-read bytes text k)

    on_v6 :
        (r : Option (List ℕ))
        → net.parse_v6 address ≡ r
        → classify (suc (suc fuel)) net address ≡ classify 2 net address
    unfolding classify
    on_v6 none h = ground arith
    on_v6 (some bytes) h = on_mapped bytes (mapped_text net bytes) h refl

-- Where the printed text of every IPv4 address is read as IPv4, more rounds change nothing.
pub classify-fuel :
    (net : AddressParser)
    → ((bytes : List ℕ) (text : Text) → net.print_v4 bytes ≡ some text → net.parse_v4 text ≢ none)
    → (fuel : ℕ) (address : Text)
    → classify (suc (suc fuel)) net address ≡ classify_network_address net address
unfolding classify_network_address
classify-fuel net reads fuel address = on_v6 net reads fuel address (net.parse_v6 address) refl
