-- ===== src/Tests/Stores.antt =====
-- The texts, the history and the command line at concrete inputs.
use fedora_firewall_control.Common.{
  ℕ, true, false, none, some, List, [], ◌∷◌, ◌≡◌, refl, ◌≢◌, ◌≤◌, ◌+◌, ◌++◌, ◌⊎◌, length, map,
  if◌then◌else◌, arith,
}
use fedora_firewall_control.Text.{Text, lit, text_eq}
use fedora_firewall_control.Mode.{
  OperatingModeLoadStatus, normal, StoredMode, load, first_line, absent,
}
use fedora_firewall_control.Mode.Storage.{load-normal}
use fedora_firewall_control.Json.Escape.{escape}
use fedora_firewall_control.Json.Escape.RoundTrip.{read, plain, read-escape}
use fedora_firewall_control.Logging.Analysis.{split_tabs}
use fedora_firewall_control.Network.Address.{
  AddressParser, classify_network_address, scope_v4, loopback,
}
use fedora_firewall_control.Network.Address.Blocks.{
  classify_network_address-networks, mapped, scope_in, networks, mapped_bytes,
}
use fedora_firewall_control.Network.History.{
  NetworkMetadata, history_record, history_field, fields_of, append, content, maximum_history_bytes,
}
use fedora_firewall_control.Network.History.Bounds.{append-size, size_after}
use fedora_firewall_control.Network.History.Record.{split_tabs-history_record, status_text}
use fedora_firewall_control.CommandLine.{parse_command_line, make_command, readiness, status}
use fedora_firewall_control.CommandLine.Exit.{Answers}
use fedora_firewall_control.Ports.{ServiceDatabase}
use fedora_firewall_control.Ports.Specs.{identify_port_spec}
use fedora_firewall_control.Ports.Specs.Ranges.{identify_port_spec-IsSpan, IsSpanOf}
use fedora_firewall_control.Tests.Logs.{log_time}
use fedora_firewall_control.Tests.States.{clean_host}

absent-normal : (load absent).mode ≡ normal
unfolding load
absent-normal = refl

load-normal_example :
    (absent ≡ absent)
    ⊎ ((value : Text) × (absent ≡ StoredMode.content value) × (first_line value ≡ lit "normal"))
load-normal_example = load-normal absent absent-normal

read-escape_example : read plain (escape (lit "a\"b\n")) ≡ some (lit "a\"b\n")
read-escape_example = read-escape (lit "a\"b\n")

-- The C library on two addresses: a mapped one, and the IPv4 one that it holds.
abbrev mapped_loopback : Text
mapped_loopback = lit "::ffff:127.0.0.1"

abbrev plain_loopback : Text
plain_loopback = lit "127.0.0.1"

abbrev two_addresses : AddressParser
two_addresses = record {
  parse_v4 = λ s. if text_eq s plain_loopback then some 2130706433 else none;
  parse_v6 = λ s. if text_eq s mapped_loopback then some (mapped_bytes 2130706433) else none;
  print_v4 = λ bytes. some plain_loopback;
}

two_addresses-v4 : two_addresses.parse_v4 mapped_loopback ≡ none
unfolding text_eq lit
two_addresses-v4 = refl

two_addresses-v6 : two_addresses.parse_v6 mapped_loopback ≡ some (mapped_bytes 2130706433)
unfolding text_eq lit
two_addresses-v6 = refl

two_addresses-plain : two_addresses.parse_v4 plain_loopback ≡ some 2130706433
unfolding text_eq lit
two_addresses-plain = refl

classify_network_address-networks_example :
    classify_network_address two_addresses mapped_loopback ≡ scope_in networks 2130706433
classify_network_address-networks_example =
    classify_network_address-networks two_addresses mapped_loopback 2130706433 (omega arith)
      (mapped plain_loopback two_addresses-v4 two_addresses-v6 refl two_addresses-plain)

mapped_loopback-scope : scope_v4 2130706433 ≡ loopback
unfolding scope_v4
mapped_loopback-scope = refl

two_addresses-reads :
    (bytes : List ℕ) (text : Text)
    → two_addresses.print_v4 bytes ≡ some text
    → two_addresses.parse_v4 text ≢ none
two_addresses-reads bytes text h = λ e. ground (arith, two_addresses-plain)

abbrev observation : NetworkMetadata
observation = record {
  observed_at_utc = log_time;
  public_ip = lit "203.0.113.5";
  default_interface = lit "eth0";
  default_gateway = lit "192.0.2.1";
  connection_profile = lit "home\tnet";
  wifi_ssid = [];
  wifi_bssid = [];
  wifi_security = [];
  country = lit "DE";
  timezone = [];
  isp = [];
  autonomous_system = [];
}

split_tabs-history_record_example :
    (line : Text) × (history_record observation true ≡ line ++ (b'\n' ∷ []))
    × (split_tabs line ≡ map history_field (fields_of observation) ++ (status_text true ∷ []))
split_tabs-history_record_example = split_tabs-history_record observation true

append-size_example :
    size_after 4 (append (content (b'a' ∷ b'\n' ∷ b'\n' ∷ b'b' ∷ [])) observation false)
    ≤ maximum_history_bytes + length (history_record observation false)
append-size_example = append-size (b'a' ∷ b'\n' ∷ b'\n' ∷ b'b' ∷ []) observation false

abbrev enrich : List Text
enrich = lit "--network-metadata" ∷ lit "--enrich" ∷ []

enrich-enriches : (parse_command_line enrich).enrich_metadata ≡ true
unfolding parse_command_line lit
enrich-enriches = refl

abbrev all_well : Answers
all_well = record {
  key_prompted = true;
  key_saved = true;
  mode_status = OperatingModeLoadStatus.available;
  mode_saved = true;
  traceroutes_available = true ∷ [];
  probes_available = true ∷ [];
  path_stability_available = none;
  resolvers_available = [];
  advisories_succeeded = true;
  logs_available = true;
  history_available = true;
  sockets_available = true;
  lookup_succeeded = true;
  history_saved = true;
  posture = clean_host;
}

make_status-action : (make_command status).action ≢ readiness
unfolding make_command
make_status-action = λ e. ground arith

abbrev no_services : ServiceDatabase
no_services port protocol = none

identify_port_spec-IsSpan_example : IsSpanOf (identify_port_spec no_services (lit "1000-2000/tcp"))
identify_port_spec-IsSpan_example = identify_port_spec-IsSpan no_services (lit "1000-2000/tcp")

range-end : (identify_port_spec no_services (lit "1000-2000/tcp")).range_end ≡ some 2000
unfolding identify_port_spec lit
range-end = refl
