-- ===== src/Sockets/Summary.antt =====
-- `summarize_listener_exposure` of src/security/socket_inspector.cpp.
pub mod Counts
use fedora_firewall_control.Common.{ℕ, ◌+◌, List, [], ◌∷◌, ◌++◌, if◌then◌else◌, length, is_empty}
use fedora_firewall_control.Text.{Text}
use fedora_firewall_control.Text.Order.{set_insert}
use fedora_firewall_control.Sockets.{endpoint_port}
use fedora_firewall_control.Firewall.{ListeningSocket, SocketState}

pub record ListenerExposureSummary : Type 0 where
  pub non_loopback_bindings : ℕ
  pub multicast_only_bindings : ℕ
  pub network_reachable_bindings : ℕ
  pub logical_network_services : ℕ
  pub process_attributed_network_bindings : ℕ

-- The summary under construction, with the set of services.
pub record Tally : Type 0 where
  pub non_loopback : ℕ
  pub multicast : ℕ
  pub reachable : ℕ
  pub attributed : ℕ
  pub services : List Text

abbrev pub no_tally : Tally
no_tally = record { non_loopback = 0; multicast = 0; reachable = 0; attributed = 0; services = [] }

unfoldable pub add_service : ListeningSocket → List Text → List Text
unfolding endpoint_port set_insert
add_service listener services =
    if is_empty (endpoint_port listener.endpoint)
    then services
    else set_insert (listener.protocol ++ b'/' ∷ endpoint_port listener.endpoint) services

-- One round of the loop.
unfoldable pub add_listener : Tally → ListeningSocket → Tally
unfolding add_service
add_listener t listener =
    if listener.loopback_only
    then t
    else if listener.multicast_only
    then record t { non_loopback = t.non_loopback + 1; multicast = t.multicast + 1 }
    else record t {
      non_loopback = t.non_loopback + 1;
      reachable = t.reachable + 1;
      attributed = if is_empty listener.process_name then t.attributed else t.attributed + 1;
      services = add_service listener t.services;
    }

unfoldable pub tally : Tally → List ListeningSocket → Tally
unfolding add_listener
tally t [] = t
tally t (listener ∷ rest) = tally (add_listener t listener) rest

unfoldable pub summarize_listener_exposure : SocketState → ListenerExposureSummary
unfolding tally
summarize_listener_exposure state =
    let t = tally no_tally state.listeners in
    record {
      non_loopback_bindings = t.non_loopback;
      multicast_only_bindings = t.multicast;
      network_reachable_bindings = t.reachable;
      logical_network_services = length t.services;
      process_attributed_network_bindings = t.attributed;
    }
