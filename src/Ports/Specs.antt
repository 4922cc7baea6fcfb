-- ===== src/Ports/Specs.antt =====
-- `parse_port`, `identify_port_spec` and `identify_endpoint` of src/firewall/port_intelligence.cpp.
pub mod Ranges
use fedora_firewall_control.Common.{ℕ, ◌+◌, Option, none, some, ltb, leb, if◌then◌else◌, take, drop}
use fedora_firewall_control.Text.{Text, lit}
use fedora_firewall_control.Text.Search.{find_char, rfind_char}
use fedora_firewall_control.Text.Decimal.{from_chars}
use fedora_firewall_control.Ports.{no_intel, ServiceDatabase, identify_port, PortIntel, range_only}

unfoldable pub parse_port : Text → Option ℕ
unfolding from_chars
parse_port value = elim (from_chars value) [
  | none ↦ none
  | some parsed ↦ if leb parsed 65535 then some parsed else none
]

identify_single : ServiceDatabase → Text → Text → PortIntel
identify_single service_database port_part protocol = elim (parse_port port_part) [
  | none ↦ no_intel
  | some port ↦ identify_port service_database port protocol
]

identify_range : ServiceDatabase → Option ℕ → Option ℕ → Text → PortIntel
identify_range service_database (some first) (some last) protocol =
    if ltb last first then no_intel else record (identify_port service_database first protocol) {
      range_end = some last;
      likely_service = lit "port range (individual services vary)";
      source = range_only;
    }
identify_range service_database _ _ protocol = no_intel

-- `port_part` is what stands in front of the slash.
unfoldable pub identify_parts : ServiceDatabase → Text → Text → PortIntel
unfolding identify_single identify_range parse_port find_char identify_port
identify_parts service_database port_part protocol = elim (find_char port_part b'-') [
  | none ↦ identify_single service_database port_part protocol
  | some dash ↦
      identify_range service_database (parse_port (take dash port_part))
        (parse_port (drop (dash + 1) port_part)) protocol
]

unfoldable pub identify_port_spec : ServiceDatabase → Text → PortIntel
unfolding identify_parts find_char
identify_port_spec service_database port_spec = elim (find_char port_spec b'/') [
  | none ↦ no_intel
  | some separator ↦
      identify_parts service_database (take separator port_spec) (drop (separator + 1) port_spec)
]

unfoldable pub identify_endpoint : ServiceDatabase → Text → Text → PortIntel
unfolding identify_single parse_port rfind_char identify_port
identify_endpoint service_database endpoint protocol = elim (rfind_char endpoint b':') [
  | none ↦ no_intel
  | some separator ↦ identify_single service_database (drop (separator + 1) endpoint) protocol
]
