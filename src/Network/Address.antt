-- ===== src/Network/Address.antt =====
-- src/network/network_address.cpp: `classify_network_address`. The C library's `inet_pton` and
-- `inet_ntop` are the record `AddressParser`.
pub mod Mapped
pub mod Blocks
use fedora_firewall_control.Common.{
  ℕ, zero, suc, ◌/◌, ◌%◌, ◌^◌, Bool, ◌&&◌, ◌||◌, Option, none, some, List, leb, ◌==◌, if◌then◌else◌,
  get_elem?, take, drop, all,
}
use fedora_firewall_control.Text.{Text, lit}
use Prim.Native.Nat.{bit_and}

pub data NetworkAddressScope : Type 0 where
  private_use carrier_grade_nat link_local loopback multicast : NetworkAddressScope
  special_use public_use unknown : NetworkAddressScope

-- `parse_v4` gives the address in host order, `parse_v6` the sixteen bytes, and `print_v4` the
-- text of four bytes.
pub record AddressParser : Type 0 where
  pub parse_v4 : Text → Option ℕ
  pub parse_v6 : Text → Option (List ℕ)
  pub print_v4 : List ℕ → Option Text

unfoldable pub scope_v4 : ℕ → NetworkAddressScope
scope_v4 value =
    let first = value / 2 ^ 24 % 256 in
    let second = value / 2 ^ 16 % 256 in
    let third = value / 2 ^ 8 % 256 in
    if first == 10
      || (first == 172 && leb 16 second && leb second 31)
      || (first == 192 && second == 168)
    then private_use
    else if first == 100 && leb 64 second && leb second 127
    then carrier_grade_nat
    else if first == 127
    then loopback
    else if first == 169 && second == 254
    then link_local
    else if leb 224 first && leb first 239
    then multicast
    else if first == 0
        || leb 240 first
        || (first == 192 && second == 0 && (third == 0 || third == 2))
        || (first == 198 && (second == 18 || second == 19 || (second == 51 && third == 100)))
        || (first == 203 && second == 0 && third == 113)
    then special_use
    else public_use

byte_at : ℕ → List ℕ → ℕ
byte_at i bytes = elim (get_elem? bytes i) [ none ↦ 0 | some b ↦ b ]

all_zero : List ℕ → Bool
all_zero bytes = all (λ b. b == 0) bytes

-- `IN6_IS_ADDR_V4MAPPED`
unfoldable pub is_v4_mapped : List ℕ → Bool
unfolding all_zero byte_at
is_v4_mapped bytes =
    all_zero (take 10 bytes) && byte_at 10 bytes == 0xff && byte_at 11 bytes == 0xff

unfoldable pub scope_v6 : List ℕ → NetworkAddressScope
unfolding byte_at all_zero
scope_v6 bytes =
    let first = byte_at 0 bytes in
    let second = byte_at 1 bytes in
    if bit_and first 0xfe == 0xfc
    then private_use
    else if first == 0xfe && bit_and second 0xc0 == 0x80
    then link_local
    else if first == 0xff
    then multicast
    else if all_zero (take 15 bytes) && byte_at 15 bytes == 1
    then loopback
    else if all_zero (take 16 bytes)
        || (first == 0x20 && second == 0x01 && byte_at 2 bytes == 0x0d && byte_at 3 bytes == 0xb8)
    then special_use
    else public_use

-- The text of the address that a mapped one holds.
unfoldable pub mapped_text : AddressParser → List ℕ → Option Text
unfolding is_v4_mapped
mapped_text net bytes = if is_v4_mapped bytes then net.print_v4 (take 4 (drop 12 bytes)) else none

-- The call for a mapped address is the only recursion; its text is an IPv4 address, so that two
-- rounds are enough.
unfoldable pub classify : ℕ → AddressParser → Text → NetworkAddressScope
unfolding scope_v4 scope_v6 mapped_text
classify zero net address = unknown
classify (suc fuel) net address = elim (net.parse_v4 address) [
  | some value ↦ scope_v4 value
  | none ↦ elim (net.parse_v6 address) [
    | none ↦ unknown
    | some bytes ↦ elim (mapped_text net bytes) [
      | some mapped ↦ classify fuel net mapped
      | none ↦ scope_v6 bytes
    ]
  ]
]

unfoldable pub classify_network_address : AddressParser → Text → NetworkAddressScope
unfolding classify
classify_network_address net address = classify 2 net address

unfoldable pub network_address_scope_label : NetworkAddressScope → Text
network_address_scope_label private_use = lit "private/local address"
network_address_scope_label carrier_grade_nat = lit "carrier-grade NAT/provider address"
network_address_scope_label link_local = lit "link-local address"
network_address_scope_label loopback = lit "loopback address"
network_address_scope_label multicast = lit "multicast address"
network_address_scope_label special_use = lit "special-use address"
network_address_scope_label public_use = lit "publicly routable address"
network_address_scope_label unknown = lit "unclassified address"
