-- ===== src/Ports/Specs/Ranges.antt =====
-- The ports that a specification can name.
use fedora_firewall_control.Common.{ℕ, ◌≡◌, ◌≤◌, Option, none, some, arith, take, drop, ◌+◌}
use fedora_firewall_control.Text.{Text}
use fedora_firewall_control.Text.Search.{find_char}
use fedora_firewall_control.Ports.{no_intel, ServiceDatabase, identify_port, PortIntel}
use fedora_firewall_control.Ports.Specs.{
  parse_port, identify_single, identify_range, identify_parts, identify_port_spec,
}

-- What a specification stands for: nothing, a port, or a range of ports in order; each of 16 bits.
abbrev pub IsSpan : Option ℕ → Option ℕ → Type 0
IsSpan none none = Unit
IsSpan none (some last) = ⊥
IsSpan (some port) none = port ≤ 65535
IsSpan (some first) (some last) = (first ≤ last) × (last ≤ 65535)

abbrev IsPort : Option ℕ → Type 0
IsPort none = Unit
IsPort (some port) = port ≤ 65535

parse_port-IsPort : (text : Text) → IsPort (parse_port text)
unfolding parse_port
parse_port-IsPort text = ground arith

identify_port-port :
    (db : ServiceDatabase) (port : ℕ) (protocol : Text)
    → ((identify_port db port protocol).port ≡ some port)
      × ((identify_port db port protocol).range_end ≡ none)
unfolding identify_port
identify_port-port db port protocol = ground arith

range-IsSpan :
    (db : ServiceDatabase) (first last : Option ℕ) (protocol : Text)
    → IsPort last
    → IsSpan
        (identify_range db first last protocol).port
        (identify_range db first last protocol).range_end
unfolding identify_range
range-IsSpan db none last protocol h = tt
range-IsSpan db (some first) none protocol h = tt
range-IsSpan db (some first) (some last) protocol h =
    ground (arith, identify_port-port db first protocol)

-- The range that is read.
abbrev pub IsSpanOf : PortIntel → Type 0
IsSpanOf intel = IsSpan intel.port intel.range_end

port-IsSpan :
    (db : ServiceDatabase) (o : Option ℕ) (protocol : Text)
    → IsPort o
    → IsSpanOf (elim o [ none ↦ no_intel | some port ↦ identify_port db port protocol ])
port-IsSpan db none protocol h = tt
port-IsSpan db (some port) protocol h = ground (arith, identify_port-port db port protocol)

single-IsSpan :
    (db : ServiceDatabase) (text protocol : Text) → IsSpanOf (identify_single db text protocol)
unfolding identify_single
single-IsSpan db text protocol = port-IsSpan db (parse_port text) protocol (parse_port-IsPort text)

parts-IsSpan :
    (db : ServiceDatabase) (text protocol : Text) → IsSpanOf (identify_parts db text protocol)
unfolding identify_parts
parts-IsSpan db text protocol =
    elim (find_char text b'-')
      as (λ o. IsSpanOf (elim o [
        | none ↦ identify_single db text protocol
        | some dash ↦
            identify_range db (parse_port (take dash text)) (parse_port (drop (dash + 1) text))
              protocol
      ])) [
        | none ↦ single-IsSpan db text protocol
        | some dash ↦
            range-IsSpan db (parse_port (take dash text)) (parse_port (drop (dash + 1) text))
              protocol (parse_port-IsPort (drop (dash + 1) text))
      ]

-- Whatever its text, a port specification is read as nothing, as a port of 16 bits, or as a range
-- whose first port is not above its last, the last of 16 bits.
pub identify_port_spec-IsSpan :
    (service_database : ServiceDatabase) (port_spec : Text)
    → IsSpanOf (identify_port_spec service_database port_spec)
unfolding identify_port_spec
identify_port_spec-IsSpan db port_spec =
    elim (find_char port_spec b'/')
      as (λ o. IsSpanOf (elim o [
        | none ↦ no_intel
        | some slash ↦ identify_parts db (take slash port_spec) (drop (slash + 1) port_spec)
      ])) [
        | none ↦ tt
        | some slash ↦ parts-IsSpan db (take slash port_spec) (drop (slash + 1) port_spec)
      ]
