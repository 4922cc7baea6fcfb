-- ===== src/Sockets/Summary/Counts.antt =====
-- How the counts of the listener summary relate.
use fedora_firewall_control.Common.{
  ◌+◌, ◌≤◌, ◌≡◌, Bool, not, true, false, ◌||◌, refl, All, ◌==◌, ◌&&◌, List, [], ◌∷◌, ◌++◌, arith,
  length, is_empty, filter,
}
use fedora_firewall_control.Firewall.{ListeningSocket, SocketState}
use fedora_firewall_control.Sockets.{is_network_reachable, endpoint_port}
use fedora_firewall_control.Sockets.Summary.{
  no_tally, add_service, add_listener, tally, summarize_listener_exposure, Tally,
}
use fedora_firewall_control.Ports.Catalog.{services}
use fedora_firewall_control.Text.{Text}
use fedora_firewall_control.Text.Order.{set_insert}

pub length-set_insert : (x : Text) (xs : List Text) → length (set_insert x xs) ≤ length xs + 1
unfolding set_insert
length-set_insert x [] = omega arith
length-set_insert x (y ∷ ys) = ground (arith, length-set_insert x ys)

length-add_service :
    (l : ListeningSocket) (services : List Text)
    → length (add_service l services) ≤ length services + 1
unfolding add_service
length-add_service l services =
    ground (arith, length-set_insert (l.protocol ++ b'/' ∷ endpoint_port l.endpoint) services)

abbrev pub has_process : ListeningSocket → Bool
has_process l = is_network_reachable l && not (is_empty l.process_name)

abbrev pub is_multicast : ListeningSocket → Bool
is_multicast l = not l.loopback_only && l.multicast_only

-- What the loop adds to a tally, by counting the listeners of each kind.
record IsCounted (t u : Tally) (ls : List ListeningSocket) : Type 0 where
  reachable : u.reachable ≡ t.reachable + length (filter is_network_reachable ls)
  multicast : u.multicast ≡ t.multicast + length (filter is_multicast ls)
  attributed : u.attributed ≡ t.attributed + length (filter has_process ls)
  non_loopback :
      u.non_loopback + t.reachable + t.multicast ≡ t.non_loopback + u.reachable + u.multicast
  services : length u.services + t.reachable ≤ length t.services + u.reachable
  named : u.attributed + t.reachable ≤ t.attributed + u.reachable

tally-IsCounted : (t : Tally) (ls : List ListeningSocket) → IsCounted t (tally t ls) ls
unfolding tally is_network_reachable
tally-IsCounted t [] = ground arith
tally-IsCounted t (l ∷ ls) =
    ground (arith, tally-IsCounted (add_listener t l) ls, length-add_service l t.services)

-- A listener beyond loopback is either multicast-only or network-reachable, and the three counts
-- are those of the listeners; there are no more services, and no more bindings with a process
-- name, than reachable bindings.
pub summarize_listener_exposure_counts :
    (s : SocketState)
    → let e = summarize_listener_exposure s in
      (e.network_reachable_bindings ≡ length (filter is_network_reachable s.listeners))
      × (e.multicast_only_bindings ≡ length (filter is_multicast s.listeners))
      × (e.process_attributed_network_bindings ≡ length (filter has_process s.listeners))
      × (e.non_loopback_bindings ≡ e.network_reachable_bindings + e.multicast_only_bindings)
      × (e.logical_network_services ≤ e.network_reachable_bindings)
      × (e.process_attributed_network_bindings ≤ e.network_reachable_bindings)
unfolding summarize_listener_exposure
summarize_listener_exposure_counts s = ground (arith, tally-IsCounted no_tally s.listeners)

is_empty-set_insert : (x : Text) (xs : List Text) → is_empty (set_insert x xs) ≡ false
unfolding set_insert
is_empty-set_insert x [] = refl
is_empty-set_insert x (y ∷ ys) = ground arith

-- A listener that the network reaches has no port, so that it names no service.
abbrev pub is_nameless : ListeningSocket → Bool
is_nameless l = not (is_network_reachable l) || is_empty (endpoint_port l.endpoint)

add_listener-nameless :
    (t : Tally) (l : ListeningSocket)
    → is_empty (add_listener t l).services ≡ true
    → (is_empty t.services ≡ true) × (is_nameless l ≡ true)
unfolding add_listener add_service is_network_reachable
add_listener-nameless t l h =
    ground (arith, is_empty-set_insert (l.protocol ++ b'/' ∷ endpoint_port l.endpoint) t.services)

tally-nameless :
    (t : Tally) (ls : List ListeningSocket)
    → is_empty (tally t ls).services ≡ true
    → (is_empty t.services ≡ true) × All (λ l. is_nameless l ≡ true) ls
unfolding tally
tally-nameless t [] h = (h, tt)
tally-nameless t (l ∷ ls) h =
    let (rest, others) = tally-nameless (add_listener t l) ls h in
    let (before, nameless) = add_listener-nameless t l rest in (before, (nameless, others))

length-zero : (xs : List Text) → (length xs == 0) ≡ true → is_empty xs ≡ true
length-zero [] h = refl
length-zero (x ∷ xs) h = ground arith

pub summarize_listener_exposure-nameless :
    (s : SocketState)
    → ((summarize_listener_exposure s).logical_network_services == 0) ≡ true
    → All (λ l. is_nameless l ≡ true) s.listeners
unfolding summarize_listener_exposure
summarize_listener_exposure-nameless s h =
    (tally-nameless no_tally s.listeners (length-zero (tally no_tally s.listeners).services h)).1
