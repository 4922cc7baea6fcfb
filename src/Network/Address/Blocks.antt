-- ===== src/Network/Address/Blocks.antt =====
-- The address blocks that the scopes of src/network/network_address.cpp stand for, as networks.
use fedora_firewall_control.Common.{
  ◌≡◌, ◌<◌, ◌+◌, ◌*◌, ◌/◌, ◌%◌, ◌^◌, ◌&&◌, Bool, arith, ℕ, leb, ltb, ◌==◌, ◌||◌, List, [], ◌∷◌,
  if◌then◌else◌, some, none, refl, ◌∙◌,
}
use fedora_firewall_control.Text.{Text}
use fedora_firewall_control.Network.Address.Mapped.{classify_network_address-mapped}
use fedora_firewall_control.Network.Address.{
  scope_v4, classify, classify_network_address, AddressParser, mapped_text, is_v4_mapped,
  NetworkAddressScope, private_use, carrier_grade_nat, link_local, loopback, multicast, special_use,
  public_use,
}

abbrev pub dotted : ℕ → ℕ → ℕ → ℕ → ℕ
dotted a b c d = a * 2 ^ 24 + b * 2 ^ 16 + c * 2 ^ 8 + d

abbrev pub in_block : ℕ → ℕ → ℕ → Bool
in_block address size value = leb address value && ltb value (address + size)

-- The scope of the first network that holds the address.
abbrev pub scope_in : List (ℕ × ℕ × NetworkAddressScope) → ℕ → NetworkAddressScope
scope_in [] value = public_use
scope_in ((address, size, scope) ∷ blocks) value =
    if in_block address size value then scope else scope_in blocks value

abbrev pub networks : List (ℕ × ℕ × NetworkAddressScope)
networks =
    (dotted 10 0 0 0, 2 ^ 24, private_use)
    ∷ (dotted 172 16 0 0, 2 ^ 20, private_use)
    ∷ (dotted 192 168 0 0, 2 ^ 16, private_use)
    ∷ (dotted 100 64 0 0, 2 ^ 22, carrier_grade_nat)
    ∷ (dotted 127 0 0 0, 2 ^ 24, loopback)
    ∷ (dotted 169 254 0 0, 2 ^ 16, link_local)
    ∷ (dotted 224 0 0 0, 2 ^ 28, multicast)
    ∷ (dotted 0 0 0 0, 2 ^ 24, special_use)
    ∷ (dotted 240 0 0 0, 2 ^ 28, special_use)
    ∷ (dotted 192 0 0 0, 2 ^ 8, special_use)
    ∷ (dotted 192 0 2 0, 2 ^ 8, special_use)
    ∷ (dotted 198 18 0 0, 2 ^ 17, special_use)
    ∷ (dotted 198 51 100 0, 2 ^ 8, special_use)
    ∷ (dotted 203 0 113 0, 2 ^ 8, special_use)
    ∷ []

-- The four bytes of an address, and the sixteen of the IPv6 address that holds it.
abbrev pub octets : ℕ → List ℕ
octets value = value / 2 ^ 24 % 256 ∷ value / 2 ^ 16 % 256 ∷ value / 2 ^ 8 % 256 ∷ value % 256 ∷ []

abbrev pub mapped_bytes : ℕ → List ℕ
mapped_bytes value = 0 ∷ 0 ∷ 0 ∷ 0 ∷ 0 ∷ 0 ∷ 0 ∷ 0 ∷ 0 ∷ 0 ∷ 0xff ∷ 0xff ∷ octets value

-- The tests of the first octets are tests of networks.
module _ (value : ℕ) (h : value < 2 ^ 32) where
  first : ℕ
  first = value / 2 ^ 24 % 256

  second : ℕ
  second = value / 2 ^ 16 % 256

  third : ℕ
  third = value / 2 ^ 8 % 256

  octet_network : (a : ℕ) → (first == a) ≡ in_block (dotted a 0 0 0) (2 ^ 24) value
  unfolding first
  octet_network a = ground arith

  two_octet_network :
      (a b : ℕ) → b < 256 → (first == a && second == b) ≡ in_block (dotted a b 0 0) (2 ^ 16) value
  unfolding first second
  two_octet_network a b k = ground arith

  three_octet_network :
      (a b c : ℕ)
      → b < 256
      → c < 256
      → (first == a && second == b && third == c) ≡ in_block (dotted a b c 0) (2 ^ 8) value
  unfolding first second third
  three_octet_network a b c k l = ground arith

  private_network :
      (first == 172 && leb 16 second && leb second 31) ≡ in_block (dotted 172 16 0 0) (2 ^ 20) value
  unfolding first second
  private_network = ground arith

  carrier_network :
      (first == 100 && leb 64 second && leb second 127)
      ≡ in_block (dotted 100 64 0 0) (2 ^ 22) value
  unfolding first second
  carrier_network = ground arith

  multicast_network : (leb 224 first && leb first 239) ≡ in_block (dotted 224 0 0 0) (2 ^ 28) value
  unfolding first
  multicast_network = ground arith

  reserved_network : leb 240 first ≡ in_block (dotted 240 0 0 0) (2 ^ 28) value
  unfolding first
  reserved_network = ground arith

  protocol_networks :
      (first == 192 && second == 0 && (third == 0 || third == 2))
      ≡ (in_block (dotted 192 0 0 0) (2 ^ 8) value || in_block (dotted 192 0 2 0) (2 ^ 8) value)
  unfolding first second third
  protocol_networks = ground arith

  testing_networks :
      (first == 198 && (second == 18 || second == 19 || (second == 51 && third == 100))) ≡ (
        in_block (dotted 198 18 0 0) (2 ^ 17) value || in_block (dotted 198 51 100 0) (2 ^ 8) value)
  unfolding first second third
  testing_networks = ground arith

chain :
    (b1 b2 b3 b4 b5 b6 b7 b8 b9 b10 b11 b12 b13 b14 : Bool)
    → (if b1 || b2 || b3
        then private_use
        else if b4
        then carrier_grade_nat
        else if b5
        then loopback
        else if b6
        then link_local
        else if b7
        then multicast
        else if b8 || b9 || (b10 || b11) || (b12 || b13) || b14
        then special_use
        else public_use)
      ≡ (if b1
          then private_use
          else if b2
          then private_use
          else if b3
          then private_use
          else if b4
          then carrier_grade_nat
          else if b5
          then loopback
          else if b6
          then link_local
          else if b7
          then multicast
          else if b8
          then special_use
          else if b9
          then special_use
          else if b10
          then special_use
          else if b11
          then special_use
          else if b12
          then special_use
          else if b13
          then special_use
          else if b14
          then special_use
          else public_use)
chain b1 b2 b3 b4 b5 b6 b7 b8 b9 b10 b11 b12 b13 b14 = ground arith

-- The scope of an IPv4 address is that of its network.
scope_v4-networks : (value : ℕ) → value < 2 ^ 32 → scope_v4 value ≡ scope_in networks value
unfolding scope_v4 first second third
scope_v4-networks value h =
    rw
      (
        octet_network value h 10,
        private_network value h,
        two_octet_network value h 192 168 (omega arith),
        carrier_network value h,
        octet_network value h 127,
        two_octet_network value h 169 254 (omega arith),
        multicast_network value h,
        octet_network value h 0,
        reserved_network value h,
        protocol_networks value h,
        testing_networks value h,
        three_octet_network value h 203 0 113 (omega arith) (omega arith),
      )
      (search chain)

-- An address of IPv4: the C library reads its text as one, or as the sixteen bytes of an IPv6
-- address that holds it, and then prints the address that is held as a text that it reads back.
pub data IsIpv4 (net : AddressParser) (address : Text) (value : ℕ) : Type 0 where
  plain : net.parse_v4 address ≡ some value → IsIpv4 net address value
  mapped :
      (text : Text)
      → net.parse_v4 address ≡ none
      → net.parse_v6 address ≡ some (mapped_bytes value)
      → net.print_v4 (octets value) ≡ some text
      → net.parse_v4 text ≡ some value
      → IsIpv4 net address value

mapped_text-octets :
    (net : AddressParser) (value : ℕ)
    → mapped_text net (mapped_bytes value) ≡ net.print_v4 (octets value)
unfolding mapped_text is_v4_mapped
mapped_text-octets net value = refl

classify_network_address-plain :
    (net : AddressParser) (address : Text) (value : ℕ)
    → IsIpv4 net address value
    → classify_network_address net address ≡ scope_v4 value
unfolding classify_network_address classify
classify_network_address-plain net address value (plain k) = ground arith
classify_network_address-plain net address value (mapped text k m p r) =
    classify_network_address-mapped net address text (mapped_bytes value) value k m
      (mapped_text-octets net value ∙ p) r

-- An IPv4 address, alone or inside an IPv6 one, is classified by the first of the listed networks
-- that holds it, and as public where none does.
pub classify_network_address-networks :
    (net : AddressParser) (address : Text) (value : ℕ)
    → value < 2 ^ 32
    → IsIpv4 net address value
    → classify_network_address net address ≡ scope_in networks value
classify_network_address-networks net address value h k =
    classify_network_address-plain net address value k ∙ scope_v4-networks value h
