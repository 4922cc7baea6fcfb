-- ===== src/Ports/Labels.antt =====
-- The labels of src/firewall/port_intelligence.cpp. The separator is a bullet, U+2022 in UTF-8.
use fedora_firewall_control.Common.{
  ℕ, Bool, true, false, Option, none, some, [], ◌∷◌, ◌++◌, leb, if◌then◌else◌, is_empty,
}
use fedora_firewall_control.Text.{Text, lit}
use fedora_firewall_control.Ports.{
  PortRange, PortKnowledgeSource, PortIntel, well_known, registered, dynamic_private, unknown,
  curated, system_service_database, range_only,
}

unfoldable pub port_range_label : PortRange → Text
port_range_label well_known = lit "well-known 0-1023"
port_range_label registered = lit "registered 1024-49151"
port_range_label dynamic_private = lit "dynamic/private 49152-65535"
port_range_label unknown = lit "unrecognized port"

unfoldable pub port_knowledge_source_label : PortKnowledgeSource → Text
port_knowledge_source_label curated = lit "defensive catalogue"
port_knowledge_source_label system_service_database = lit "local service database"
port_knowledge_source_label range_only = lit "range classification"

unfoldable pub separator : Text
separator = b' ' ∷ 0xe2 ∷ 0x80 ∷ 0xa2 ∷ b' ' ∷ []

unfoldable pub range_eq : PortRange → PortRange → Bool
range_eq well_known well_known = true
range_eq registered registered = true
range_eq dynamic_private dynamic_private = true
range_eq unknown unknown = true
range_eq _ _ = false

-- The range of the last port of a span.
unfoldable pub final_range : PortRange → ℕ → PortRange
final_range range last =
    if leb last 1023 then range else if leb last 49151 then registered else dynamic_private

abbrev span_label : Text → PortRange → Option ℕ → Text
span_label label range none = label ++ separator ++ port_range_label range
span_label label range (some last) =
    let final = final_range range last in
    if range_eq final range
    then label ++ separator ++ port_range_label range
    else label
      ++ separator
      ++ lit "spans "
      ++ port_range_label range
      ++ lit " to "
      ++ port_range_label final

unfoldable pub port_intel_label : PortIntel → Text
unfolding separator port_range_label final_range range_eq
port_intel_label intel = elim intel.port [
  | none ↦ lit "port unavailable"
  | some port ↦
      span_label
        (if is_empty intel.likely_service then lit "unmapped service" else intel.likely_service)
        intel.range intel.range_end
]
