-- ===== src/Ports.antt =====
-- src/firewall/port_intelligence.cpp: conventional port knowledge. The C library's
-- `getservbyport` is the argument `service_database`: the name of a port and protocol, if any.
pub mod TcpNames
pub mod OtherNames
pub mod Catalog
pub mod Specs
pub mod Labels
use fedora_firewall_control.Common.{
  ℕ, Option, none, some, List, [], ◌∷◌, ◌++◌, leb, if◌then◌else◌, any,
}
use fedora_firewall_control.Text.{Text, lit, lowercase_copy}
use fedora_firewall_control.Text.Decimal.{to_string}
use fedora_firewall_control.Dict.{lookup}
use fedora_firewall_control.Ports.TcpNames.{tcp_names}
use fedora_firewall_control.Ports.OtherNames.{udp_names, sctp_names}
use fedora_firewall_control.Ports.Catalog.{find_service, find_service_range}

pub data PortRange : Type 0 where
  well_known registered dynamic_private unknown : PortRange

pub data PortKnowledgeSource : Type 0 where
  curated system_service_database range_only : PortKnowledgeSource

pub record PortIntel : Type 0 where
  pub port : Option ℕ
  pub range_end : Option ℕ
  pub protocol : Text
  pub range : PortRange
  pub likely_service : Text
  pub source : PortKnowledgeSource

abbrev pub no_intel : PortIntel
no_intel = record {
  port = none;
  range_end = none;
  protocol = [];
  range = unknown;
  likely_service = [];
  source = range_only;
}

unfoldable pub service_names : List (Text × Text)
unfolding tcp_names udp_names sctp_names
service_names = tcp_names ++ udp_names ++ sctp_names

-- The range of a port number, as in `identify_port`.
unfoldable pub range_of : ℕ → PortRange
range_of port =
    if leb port 1023 then well_known else if leb port 49151 then registered else dynamic_private

abbrev pub ServiceDatabase : Type 0
ServiceDatabase = ℕ → Text → Option Text

-- `likely_service` and `source`: the exact tables, the ranges, and then the local database.
unfoldable pub known_service : ServiceDatabase → ℕ → Text → Text × PortKnowledgeSource
unfolding lookup service_names to_string find_service find_service_range
known_service service_database port protocol =
    elim (lookup (protocol ++ b'/' ∷ to_string port) service_names) [
      | some label ↦ (label, curated)
      | none ↦ elim (find_service protocol port) [
        | some label ↦ (label, curated)
        | none ↦ elim (find_service_range protocol port) [
          | some label ↦ (label, curated)
          | none ↦ elim (service_database port protocol) [
            | some name ↦ (name ++ lit " (local service database)", system_service_database)
            | none ↦ ([], range_only)
          ]
        ]
      ]
    ]

unfoldable pub identify_port : ServiceDatabase → ℕ → Text → PortIntel
unfolding known_service range_of lowercase_copy
identify_port service_database port protocol =
    let normalized = lowercase_copy protocol in
    let known = known_service service_database port normalized in
    record {
      port = some port;
      range_end = none;
      protocol = normalized;
      range = range_of port;
      likely_service = known.0;
      source = known.1;
    }
