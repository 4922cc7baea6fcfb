-- ===== src/Firewall/ZoneParser.antt =====
-- `parse_zone_info` and `parse_all_zone_info` of src/firewall/firewall_state.cpp.
pub mod Fields
pub mod Zones
pub mod Blocks
use fedora_firewall_control.Common.{
  ℕ, ◌+◌, Bool, false, not, ◌&&◌, ◌||◌, none, some, List, [], ◌∷◌, ◌++◌, ◌==◌, if◌then◌else◌,
  is_empty, take, drop,
}
use fedora_firewall_control.Text.{Text, lit, text_eq, trim_by}
use fedora_firewall_control.Text.Search.{contains_text, find_char, has_other}
use fedora_firewall_control.Text.Words.{lines, split_words}
use fedora_firewall_control.Dict.{emplace}
use fedora_firewall_control.Firewall.{ZoneState, no_zone}

-- `find_first_not_of(" \t")`
unfoldable pub is_blank : ℕ → Bool
is_blank c = c == b' ' || c == b'\t'

pub record ZoneReader : Type 0 where
  pub zone : ZoneState
  pub reading_forward_ports : Bool

abbrev push_rich_rule : Text → ZoneState → ZoneState
push_rich_rule rule zone = record zone { rich_rules = zone.rich_rules ++ rule ∷ [] }

abbrev push_forward_port : Text → ZoneState → ZoneState
push_forward_port port zone = record zone { forward_ports = zone.forward_ports ++ port ∷ [] }

set_target : List Text → ZoneState → ZoneState
set_target (value ∷ []) zone = record zone { target = value }
set_target _ zone = record zone { details_valid = false }

set_flag : Bool → List Text → ZoneState → ZoneState
set_flag is_masquerade (value ∷ []) zone =
    if text_eq value (lit "yes") || text_eq value (lit "no")
    then if is_masquerade
      then record zone { masquerade = text_eq value (lit "yes") }
      else record zone { forward = text_eq value (lit "yes") }
    else record zone { details_valid = false }
set_flag _ _ zone = record zone { details_valid = false }

-- The ladder over the trimmed key.
unfoldable pub zone_field : Text → Text → ZoneState → ZoneState
unfolding set_target set_flag is_blank has_other text_eq split_words
zone_field key value zone =
    if text_eq key (lit "target")
    then set_target (split_words value) zone
    else if text_eq key (lit "interfaces")
    then record zone { interfaces = split_words value }
    else if text_eq key (lit "sources")
    then record zone { sources = split_words value }
    else if text_eq key (lit "services")
    then record zone { services = split_words value }
    else if text_eq key (lit "ports")
    then record zone { ports = split_words value }
    else if text_eq key (lit "protocols")
    then record zone { protocols = split_words value }
    else if text_eq key (lit "source-ports")
    then record zone { source_ports = split_words value }
    else if text_eq key (lit "forward-ports") && has_other is_blank value
    then push_forward_port value zone
    else if text_eq key (lit "rich rules")
    then if not (is_empty value) && has_other is_blank value
      then push_rich_rule value zone
      else zone
    else if text_eq key (lit "masquerade") || text_eq key (lit "forward")
    then set_flag (text_eq key (lit "masquerade")) (split_words value) zone
    else zone

zone_entry : ZoneReader → Text → Text → ZoneReader
zone_entry r raw_key value =
    let key = trim_by is_blank raw_key in
    if has_other is_blank raw_key
    then record {
      zone = zone_field key value r.zone;
      reading_forward_ports = text_eq key (lit "forward-ports");
    }
    else r

-- One round of the loop over the lines.
unfoldable pub zone_line : ZoneReader → Text → ZoneReader
unfolding zone_entry zone_field trim_by contains_text find_char
zone_line r line =
    if contains_text line (lit "rule ")
    then record r { zone = push_rich_rule line r.zone }
    else if r.reading_forward_ports && contains_text line (lit "port=")
    then record r { zone = push_forward_port line r.zone }
    else elim (find_char line b':') [
      | none ↦
          if r.reading_forward_ports && has_other is_blank line
          then record r { zone = push_forward_port line r.zone }
          else r
      | some colon ↦ zone_entry r (take colon line) (drop (colon + 1) line)
    ]

zone_lines : ZoneReader → List Text → ZoneReader
zone_lines r [] = r
zone_lines r (line ∷ rest) = zone_lines (zone_line r line) rest

unfoldable pub parse_zone_info : Text → ZoneState
unfolding zone_lines zone_line lines
parse_zone_info text =
    (zone_lines (record { zone = no_zone; reading_forward_ports = false }) (lines text)).zone

pub record ZonesReader : Type 0 where
  pub zones : List (Text × ZoneState)
  pub current_name : Text
  pub current_zone : Text

-- A line that starts in the first column opens a block.
unfoldable pub starts_block : Text → Bool
unfolding is_blank
starts_block [] = false
starts_block (c ∷ cs) = not (is_blank c)

unfoldable pub first_word : Text → Text
unfolding split_words
first_word line = elim (split_words line) [ [] ↦ [] | w ∷ ws ↦ w ]

save_zone : ZonesReader → List (Text × ZoneState)
save_zone r =
    if is_empty r.current_name
    then r.zones
    else emplace r.current_name (parse_zone_info r.current_zone) r.zones

all_zones_line : ZonesReader → Text → ZonesReader
all_zones_line r line =
    if starts_block line
    then record { zones = save_zone r; current_name = first_word line; current_zone = [] }
    else if not (is_empty r.current_name)
    then record r { current_zone = r.current_zone ++ line ++ b'\n' ∷ [] }
    else r

all_zones_lines : ZonesReader → List Text → ZonesReader
all_zones_lines r [] = r
all_zones_lines r (line ∷ rest) = all_zones_lines (all_zones_line r line) rest

unfoldable pub parse_all_zone_info : Text → List (Text × ZoneState)
unfolding all_zones_lines all_zones_line save_zone parse_zone_info starts_block first_word emplace
    lines
parse_all_zone_info text =
    save_zone
      (all_zones_lines (record { zones = []; current_name = []; current_zone = [] }) (lines text))
