-- ===== src/Firewall/ZoneParser/Zones.antt =====
-- The lists of a whole zone are read back.
use fedora_firewall_control.Common.{
  ◌≡◌, ◌≢◌, refl, false, List, [], ◌∷◌, ◌++◌, arith, All, All-append,
}
use fedora_firewall_control.Text.{Text, lit}
use fedora_firewall_control.Text.Search.{contains_text}
use fedora_firewall_control.Text.Words.{lines}
use fedora_firewall_control.Text.Words.Joined.{IsWord, joined_words}
use fedora_firewall_control.Text.Words.Lines.{IsLine, lines-line, joined_words-IsLine}
use fedora_firewall_control.Firewall.{ZoneState, no_zone}
use fedora_firewall_control.Firewall.ZoneParser.{ZoneReader, zone_lines, parse_zone_info}
use fedora_firewall_control.Firewall.ZoneParser.Fields.{
  ListField, field_key, with_list, list_line, zone_line-list_line, interface_list, source_list,
  service_list, port_list, protocol_list, source_port_list,
}

-- The lines of a zone, one for each list.
abbrev pub print_lists : List (ListField × List Text) → Text
print_lists [] = []
print_lists ((f, ws) ∷ fields) = list_line f ws ++ (b'\n' ∷ print_lists fields)

abbrev pub with_lists : List (ListField × List Text) → ZoneState → ZoneState
with_lists [] z = z
with_lists ((f, ws) ∷ fields) z = with_lists fields (with_list f ws z)

-- Words, and no line that is taken for a rich rule.
abbrev pub IsPlainList : ListField × List Text → Type 0
IsPlainList field =
    All IsWord field.1 × (contains_text (list_line field.0 field.1) (lit "rule ") ≡ false)

key-IsLine : (f : ListField) → IsLine (field_key f)
unfolding lit
key-IsLine interface_list = ground arith
key-IsLine source_list = ground arith
key-IsLine service_list = ground arith
key-IsLine port_list = ground arith
key-IsLine protocol_list = ground arith
key-IsLine source_port_list = ground arith

pub list_line-IsLine : (f : ListField) (ws : List Text) → All IsWord ws → IsLine (list_line f ws)
list_line-IsLine f ws h = (
  λ e. omega arith,
  (
    λ e. omega arith,
    All-append (λ c. c ≢ b'\n') (field_key f) (b':' ∷ b' ' ∷ joined_words ws) (key-IsLine f)
        (λ e. omega arith, (λ e. omega arith, joined_words-IsLine ws h)),
  ),
)

reader : ZoneState → ZoneReader
reader z = record { zone = z; reading_forward_ports = false }

zone_lines-lists :
    (fields : List (ListField × List Text)) (z : ZoneState)
    → All IsPlainList fields
    → zone_lines (reader z) (lines (print_lists fields)) ≡ reader (with_lists fields z)
unfolding zone_lines lines reader
zone_lines-lists [] z h = refl
zone_lines-lists ((f, ws) ∷ fields) z ((words, plain), h) = cc (
  lines-line (list_line f ws) (print_lists fields) (list_line-IsLine f ws words),
  zone_line-list_line f (reader z) ws words plain refl,
  zone_lines-lists fields (with_list f ws z) h,
)

-- A zone printed as lines that each hold one of its six lists, as words joined by spaces, is
-- read as the zone with those lists, a later line for a list replacing an earlier one, if no
-- line has `rule` with a space behind it, which the parser takes for a rich rule wherever it
-- stands.
pub parse_zone_info-print_lists :
    (fields : List (ListField × List Text))
    → All IsPlainList fields
    → parse_zone_info (print_lists fields) ≡ with_lists fields no_zone
unfolding parse_zone_info reader
parse_zone_info-print_lists fields h = cc (zone_lines-lists fields no_zone h)
