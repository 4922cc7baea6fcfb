-- ===== src/Tests/Parsers.antt =====
-- The parsers at concrete texts, and the evidence of a concrete host.
use fedora_firewall_control.Common.{◌≡◌, refl, List, [], ◌∷◌, arith, All}
use fedora_firewall_control.Text.{Text, lit}
use fedora_firewall_control.Text.Words.{split_words}
use fedora_firewall_control.Text.Words.Joined.{IsWord}
use fedora_firewall_control.Firewall.{no_zone}
use fedora_firewall_control.Firewall.ZoneParser.{parse_zone_info}
use fedora_firewall_control.Firewall.ZoneParser.Fields.{ListField, service_list, port_list}
use fedora_firewall_control.Firewall.ZoneParser.Zones.{IsPlainList}
use fedora_firewall_control.Firewall.ZoneParser.Blocks.{
  Block, IsBlock, print_blocks, emplace_blocks, parse_all_zone_info-print_blocks,
}
use fedora_firewall_control.Firewall.ZoneParser.{parse_all_zone_info}

abbrev two_words : List Text
two_words = (b's' ∷ b's' ∷ b'h' ∷ []) ∷ (b'd' ∷ b'n' ∷ b's' ∷ []) ∷ []

two_words-IsWord : All IsWord two_words
unfolding split_words
two_words-IsWord = ground arith

abbrev two_lists : List (ListField × List Text)
two_lists = (service_list, two_words) ∷ (port_list, []) ∷ []

two_lists-IsPlainList : All IsPlainList two_lists
unfolding parse_zone_info lit
two_lists-IsPlainList = ground arith

-- A source whose name ends in `rule`, in front of another one, is taken for a rich rule.
rule_source :
    parse_zone_info (lit "  sources: ipset:myrule 10.0.0.0/8\n")
    ≡ record no_zone { rich_rules = lit "  sources: ipset:myrule 10.0.0.0/8" ∷ [] }
unfolding parse_zone_info lit
rule_source = refl

abbrev two_blocks : List Block
two_blocks = (b'w' ∷ b'k' ∷ [], two_lists) ∷ (b'h' ∷ [], []) ∷ []

two_blocks-IsBlock : All IsBlock two_blocks
unfolding parse_all_zone_info lit
two_blocks-IsBlock = ground arith

parse_all_zone_info-print_blocks_example :
    parse_all_zone_info (print_blocks two_blocks) ≡ emplace_blocks two_blocks []
parse_all_zone_info-print_blocks_example =
    parse_all_zone_info-print_blocks two_blocks two_blocks-IsBlock
