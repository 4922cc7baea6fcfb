-- ===== src/Firewall/ZoneParser/Blocks.antt =====
-- The zones of `--list-all-zones` are read back.
use mathlib.Core.List.{append_assoc, append-nil}
use fedora_firewall_control.Common.{◌≡◌, refl, List, [], ◌∷◌, ◌++◌, arith, All, ℕ}
use fedora_firewall_control.Text.{Text, is_space}
use fedora_firewall_control.Text.Words.{lines}
use fedora_firewall_control.Text.Words.Joined.{IsWord, split_words-joined_words}
use fedora_firewall_control.Text.Words.Lines.{lines-line, IsWord-IsLine}
use fedora_firewall_control.Dict.{emplace}
use fedora_firewall_control.Firewall.{ZoneState, no_zone}
use fedora_firewall_control.Firewall.ZoneParser.{
  ZonesReader, starts_block, first_word, save_zone, all_zones_line, all_zones_lines,
  parse_all_zone_info,
}
use fedora_firewall_control.Firewall.ZoneParser.Fields.{ListField, list_line}
use fedora_firewall_control.Firewall.ZoneParser.Zones.{
  print_lists, with_lists, IsPlainList, parse_zone_info-print_lists, list_line-IsLine,
}

-- A zone is its name and the lines of its lists.
abbrev pub Block : Type 0
Block = Text × List (ListField × List Text)

abbrev pub print_blocks : List Block → Text
print_blocks [] = []
print_blocks ((name, fields) ∷ blocks) =
    name ++ (b'\n' ∷ (print_lists fields ++ print_blocks blocks))

-- The zones in the order of the text, a name that is there already keeping its first zone.
abbrev pub emplace_blocks : List Block → List (Text × ZoneState) → List (Text × ZoneState)
emplace_blocks [] zones = zones
emplace_blocks ((name, fields) ∷ blocks) zones =
    emplace_blocks blocks (emplace name (with_lists fields no_zone) zones)

abbrev pub IsBlock : Block → Type 0
IsBlock block = IsWord block.0 × All IsPlainList block.1

pending : List (Text × ZoneState) → Text → Text → ZonesReader
pending zones name text = record { zones = zones; current_name = name; current_zone = text }

field-line :
    (zones : List (Text × ZoneState)) (c : ℕ) (name text : Text) (f : ListField) (ws : List Text)
    → all_zones_line (pending zones (c ∷ name) text) (list_line f ws)
      ≡ pending zones (c ∷ name) (text ++ list_line f ws ++ (b'\n' ∷ []))
unfolding all_zones_line starts_block pending
field-line zones c name text f ws = refl

block-fields :
    (zones : List (Text × ZoneState)) (c : ℕ) (name text rest : Text)
    (fields : List (ListField × List Text))
    → All IsPlainList fields
    → all_zones_lines (pending zones (c ∷ name) text) (lines (print_lists fields ++ rest))
      ≡ all_zones_lines (pending zones (c ∷ name) (text ++ print_lists fields)) (lines rest)
unfolding all_zones_lines
block-fields zones c name text rest [] h = cc (append-nil text)
block-fields zones c name text rest ((f, ws) ∷ fields) ((words, plain), h) = cc (
  append_assoc (list_line f ws) (b'\n' ∷ print_lists fields) rest,
  lines-line (list_line f ws) (print_lists fields ++ rest) (list_line-IsLine f ws words),
  field-line zones c name text f ws,
  block-fields zones c name (text ++ list_line f ws ++ (b'\n' ∷ [])) rest fields h,
  append_assoc text (list_line f ws) (b'\n' ∷ []),
  append_assoc text (list_line f ws ++ (b'\n' ∷ [])) (print_lists fields),
  append_assoc (list_line f ws) (b'\n' ∷ []) (print_lists fields),
)

name-line :
    (zones : List (Text × ZoneState)) (name text : Text) (c : ℕ) (cs : Text)
    → IsWord (c ∷ cs)
    → all_zones_line (pending zones name text) (c ∷ cs)
      ≡ pending (save_zone (pending zones name text)) (c ∷ cs) []
unfolding all_zones_line starts_block first_word pending is_space
name-line zones name text c cs (h, k) =
    ground (arith, split_words-joined_words ((c ∷ cs) ∷ []) ((h, k), tt))

save-pending :
    (zones : List (Text × ZoneState)) (c : ℕ) (cs : Text) (fields : List (ListField × List Text))
    → All IsPlainList fields
    → save_zone (pending zones (c ∷ cs) (print_lists fields))
      ≡ emplace (c ∷ cs) (with_lists fields no_zone) zones
unfolding save_zone pending
save-pending zones c cs fields h = cc (parse_zone_info-print_lists fields h)

-- A block that is open when the other blocks are read
blocks-pending :
    (blocks : List Block) (zones : List (Text × ZoneState)) (c : ℕ) (cs : Text)
    (fields : List (ListField × List Text))
    → All IsPlainList fields
    → All IsBlock blocks
    → save_zone (
        all_zones_lines (pending zones (c ∷ cs) (print_lists fields)) (lines (print_blocks blocks)))
      ≡ emplace_blocks (((c ∷ cs), fields) ∷ blocks) zones
unfolding all_zones_lines lines
blocks-pending [] zones c cs fields h k = save-pending zones c cs fields h
blocks-pending (([], gs) ∷ blocks) zones c cs fields h ((w, g), k) = absurd w
blocks-pending ((d ∷ ds, gs) ∷ blocks) zones c cs fields h ((w, g), k) = cc (
  lines-line (d ∷ ds) (print_lists gs ++ print_blocks blocks) (IsWord-IsLine (d ∷ ds) w),
  name-line zones (c ∷ cs) (print_lists fields) d ds w,
  save-pending zones c cs fields h,
  block-fields (emplace (c ∷ cs) (with_lists fields no_zone) zones) d ds [] (print_blocks blocks) gs
      g,
  blocks-pending blocks (emplace (c ∷ cs) (with_lists fields no_zone) zones) d ds gs g k,
)

-- The text of `--list-all-zones` with one block for each zone, its name and the lines of its
-- lists, is read as those zones, the first zone of a name being kept, if the names and the
-- values are words and no line has `rule` with a space behind it.
pub parse_all_zone_info-print_blocks :
    (blocks : List Block)
    → All IsBlock blocks
    → parse_all_zone_info (print_blocks blocks) ≡ emplace_blocks blocks []
unfolding parse_all_zone_info all_zones_lines save_zone pending lines
parse_all_zone_info-print_blocks [] h = refl
parse_all_zone_info-print_blocks (([], fields) ∷ blocks) ((w, g), k) = absurd w
parse_all_zone_info-print_blocks ((c ∷ cs, fields) ∷ blocks) ((w, g), k) = cc (
  lines-line (c ∷ cs) (print_lists fields ++ print_blocks blocks) (IsWord-IsLine (c ∷ cs) w),
  name-line [] [] [] c cs w,
  block-fields [] c cs [] (print_blocks blocks) fields g,
  blocks-pending blocks [] c cs fields g k,
)
