-- ===== src/Firewall/ZoneParser/Fields.antt =====
-- The lists of a zone, read back from the lines that `firewall-cmd` prints for them.
use fedora_firewall_control.Common.{◌≡◌, refl, false, List, ◌∷◌, ◌++◌, arith, All}
use fedora_firewall_control.Text.{Text, lit, trim_by}
use fedora_firewall_control.Text.Search.{contains_text}
use fedora_firewall_control.Text.Words.{split_words}
use fedora_firewall_control.Text.Words.Joined.{
  IsWord, joined_words, split_words-joined_words, split_words-space,
}
use fedora_firewall_control.Firewall.{ZoneState}
use fedora_firewall_control.Firewall.ZoneParser.{ZoneReader, zone_line, zone_entry, zone_field}

-- The lists that a line can hold.
pub data ListField : Type 0 where
  interface_list source_list service_list port_list protocol_list source_port_list : ListField

abbrev pub field_key : ListField → Text
field_key interface_list = lit "interfaces"
field_key source_list = lit "sources"
field_key service_list = lit "services"
field_key port_list = lit "ports"
field_key protocol_list = lit "protocols"
field_key source_port_list = lit "source-ports"

abbrev pub with_list : ListField → List Text → ZoneState → ZoneState
with_list interface_list ws z = record z { interfaces = ws }
with_list source_list ws z = record z { sources = ws }
with_list service_list ws z = record z { services = ws }
with_list port_list ws z = record z { ports = ws }
with_list protocol_list ws z = record z { protocols = ws }
with_list source_port_list ws z = record z { source_ports = ws }

-- Two spaces, the key, a colon, a space and the words.
abbrev pub list_line : ListField → List Text → Text
list_line f ws = b' ' ∷ b' ' ∷ (field_key f ++ (b':' ∷ b' ' ∷ joined_words ws))

entry-list :
    (f : ListField) (r : ZoneReader) (value : Text)
    → zone_entry r (b' ' ∷ b' ' ∷ field_key f) value
      ≡ record { zone = with_list f (split_words value) r.zone; reading_forward_ports = false }
unfolding zone_entry zone_field trim_by lit
entry-list interface_list r value = refl
entry-list source_list r value = refl
entry-list service_list r value = refl
entry-list port_list r value = refl
entry-list protocol_list r value = refl
entry-list source_port_list r value = refl

line-entry :
    (f : ListField) (r : ZoneReader) (ws : List Text)
    → contains_text (list_line f ws) (lit "rule ") ≡ false
    → r.reading_forward_ports ≡ false
    → zone_line r (list_line f ws)
      ≡ zone_entry r (b' ' ∷ b' ' ∷ field_key f) (b' ' ∷ joined_words ws)
unfolding zone_line lit
line-entry interface_list r ws h k = ground arith
line-entry source_list r ws h k = ground arith
line-entry service_list r ws h k = ground arith
line-entry port_list r ws h k = ground arith
line-entry protocol_list r ws h k = ground arith
line-entry source_port_list r ws h k = ground arith

-- A line of `firewall-cmd` that holds one of the six lists of a zone, as words joined by spaces,
-- sets that list to those words and nothing else, if the line has no `rule` with a space behind
-- it and no forwarded ports are being read.
pub zone_line-list_line :
    (f : ListField) (r : ZoneReader) (ws : List Text)
    → All IsWord ws
    → contains_text (list_line f ws) (lit "rule ") ≡ false
    → r.reading_forward_ports ≡ false
    → zone_line r (list_line f ws)
      ≡ record { zone = with_list f ws r.zone; reading_forward_ports = false }
zone_line-list_line f r ws words h k = cc (
  line-entry f r ws h k,
  entry-list f r (b' ' ∷ joined_words ws),
  split_words-space (joined_words ws),
  split_words-joined_words ws words,
)
