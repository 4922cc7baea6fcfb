-- ===== src/Firewall/ActiveZones.antt =====
-- `parse_active_zones`, `parse_active_zone_sources` and `parse_active_policy_names` of
-- src/firewall/firewall_state.cpp.
use fedora_firewall_control.Common.{
  ℕ, ◌+◌, ◌&&◌, none, some, List, [], ◌∷◌, map, leb, if◌then◌else◌, is_empty, take, drop,
}
use fedora_firewall_control.Text.{Text, lit}
use fedora_firewall_control.Text.Search.{contains_text, find_char}
use fedora_firewall_control.Text.Words.{lines, split_words}
use fedora_firewall_control.Dict.{assign}
use fedora_firewall_control.Firewall.ZoneParser.{starts_block, first_word}

pub record ActiveReader : Type 0 where
  pub zones : List (Text × List Text)
  pub current_zone : Text

active_entry : Text → ActiveReader → Text → ℕ → ActiveReader
active_entry field r line colon =
    if contains_text (take colon line) field
    then record r { zones = assign r.current_zone (split_words (drop (colon + 1) line)) r.zones }
    else r

-- One round of the loop of either parser; `field` is the word that it looks for in the key.
unfoldable pub active_line : Text → ActiveReader → Text → ActiveReader
unfolding active_entry starts_block first_word find_char contains_text split_words assign
active_line field r line =
    if is_empty line
    then r
    else if starts_block line
    then record r { current_zone = first_word line }
    else elim (find_char line b':') [
      | none ↦ r
      | some colon ↦ if is_empty r.current_zone then r else active_entry field r line colon
    ]

active_lines : Text → ActiveReader → List Text → ActiveReader
active_lines field r [] = r
active_lines field r (line ∷ rest) = active_lines field (active_line field r line) rest

unfoldable pub parse_active_zones : Text → List (Text × List Text)
unfolding active_lines active_line lines
parse_active_zones text =
    (active_lines (lit "interfaces") (record { zones = []; current_zone = [] }) (lines text)).zones

unfoldable pub parse_active_zone_sources : Text → List (Text × List Text)
unfolding active_lines active_line lines
parse_active_zone_sources text =
    (active_lines (lit "sources") (record { zones = []; current_zone = [] }) (lines text)).zones

unfoldable pub sanitize_terminal_identifier : Text → Text
sanitize_terminal_identifier value = map (λ c. if leb 0x20 c && leb c 0x7e then c else b'?') value

policy_line : Text → List Text → List Text
policy_line line rest =
    if starts_block line
    then elim (split_words line) [ [] ↦ rest | w ∷ ws ↦ sanitize_terminal_identifier w ∷ rest ]
    else rest

policy_lines : List Text → List Text
policy_lines [] = []
policy_lines (line ∷ rest) = policy_line line (policy_lines rest)

unfoldable pub parse_active_policy_names : Text → List Text
unfolding policy_lines policy_line sanitize_terminal_identifier starts_block split_words lines
parse_active_policy_names text = policy_lines (lines text)
