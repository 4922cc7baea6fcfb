-- ===== src/Sockets.antt =====
-- src/security/socket_inspector.cpp: the listener inventory and its exposure summary.
pub mod Summary
use fedora_firewall_control.Common.{
  ◌+◌, ◌-◌, Bool, true, false, not, ◌&&◌, ◌||◌, Option, none, some, List, [], ◌∷◌, leb, ◌==◌,
  if◌then◌else◌, length, take, drop,
}
use fedora_firewall_control.Text.{Text, lit, text_eq, tolower}
use fedora_firewall_control.Text.Search.{starts_with, find, find_char, rfind_char, substr}
use fedora_firewall_control.Text.Words.{lines, split_words}
use fedora_firewall_control.Text.Decimal.{from_chars}
use fedora_firewall_control.Command.{success, CommandRunner, error_or}
use fedora_firewall_control.Firewall.{ListeningSocket, SocketState, no_sockets}

-- The address in front of the last colon.
abbrev address_of : Text → Text
address_of endpoint = elim (rfind_char endpoint b':') [
  | none ↦ endpoint
  | some separator ↦ take separator endpoint
]

unfoldable pub is_loopback_endpoint : Text → Bool
unfolding rfind_char starts_with
is_loopback_endpoint endpoint =
    let address = address_of endpoint in
    starts_with address (lit "127.")
    || starts_with address (lit "[::1]")
    || starts_with address (lit "[::ffff:127.")

-- Both bytes behind the bracket are an `f` of either case.
is_ff : Text → Bool
is_ff (a ∷ b ∷ more) = tolower a == b'f' && tolower b == b'f'
is_ff _ = false

is_multicast_v6 : Text → Bool
is_multicast_v6 address = elim (find_char address b']') [
  | none ↦ false
  | some closing ↦ is_ff (substr address 1 (closing - 1))
]

is_multicast_v4 : Text → Bool
is_multicast_v4 address =
    let first_octet =
      take (elim (find_char address b'.') [ none ↦ length address | some dot ↦ dot ]) address in
    elim (from_chars first_octet) [ none ↦ false | some parsed ↦ leb 224 parsed && leb parsed 239 ]

unfoldable pub is_multicast_endpoint : Text → Bool
unfolding is_multicast_v6 is_multicast_v4 is_ff rfind_char find_char starts_with substr from_chars
    tolower
is_multicast_endpoint endpoint = elim (rfind_char endpoint b':') [
  | none ↦ false
  | some separator ↦
      if starts_with (take separator endpoint) (lit "[")
      then is_multicast_v6 (take separator endpoint)
      else is_multicast_v4 (take separator endpoint)
]

unfoldable pub endpoint_port : Text → Text
unfolding rfind_char
endpoint_port endpoint = elim (rfind_char endpoint b':') [
  | none ↦ []
  | some separator ↦ drop (separator + 1) endpoint
]

name_until_quote : Text → Text
name_until_quote s = elim (find_char s b'"') [ none ↦ [] | some name_end ↦ take name_end s ]

unfoldable pub process_name : Text → Text
unfolding name_until_quote find find_char
process_name line =
    let marker = lit "users:((\"" in
    elim (find line marker) [
      | none ↦ []
      | some start ↦ name_until_quote (drop (start + length marker) line)
    ]

abbrev socket_of : Text → Text → Text → ListeningSocket
socket_of line protocol endpoint = record {
  protocol = protocol;
  endpoint = endpoint;
  loopback_only = is_loopback_endpoint endpoint;
  multicast_only = is_multicast_endpoint endpoint;
  process_name = process_name line;
}

-- At least six fields; the first is the protocol and the fifth the local endpoint.
socket_fields : Text → List Text → Option ListeningSocket
socket_fields line (protocol ∷ state ∷ received ∷ sent ∷ endpoint ∷ peer ∷ more) =
    if text_eq protocol (lit "tcp") || text_eq protocol (lit "udp")
    then some (socket_of line protocol endpoint)
    else none
socket_fields line _ = none

socket_lines : List Text → List ListeningSocket
socket_lines [] = []
socket_lines (line ∷ rest) = elim (socket_fields line (split_words line)) [
  | none ↦ socket_lines rest
  | some socket ↦ socket ∷ socket_lines rest
]

unfoldable pub parse_listening_sockets : Text → List ListeningSocket
unfolding socket_lines socket_fields split_words lines text_eq is_loopback_endpoint
    is_multicast_endpoint process_name
parse_listening_sockets ss_output = socket_lines (lines ss_output)

unfoldable pub is_network_reachable : ListeningSocket → Bool
is_network_reachable listener = not listener.loopback_only && not listener.multicast_only

unfoldable pub inspect : CommandRunner → SocketState
unfolding parse_listening_sockets
inspect run =
    let result = run (lit "ss" ∷ lit "-H" ∷ lit "-lntup" ∷ []) in
    if not (success result)
    then record no_sockets { diagnostic = error_or result (lit "ss listener query failed") }
    else record {
      available = true;
      listeners = parse_listening_sockets result.stdout_text;
      process_metadata_requested = true;
      diagnostic = [];
    }
