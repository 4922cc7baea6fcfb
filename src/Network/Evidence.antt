-- ===== src/Network/Evidence.antt =====
-- src/network/network_evidence.cpp, and `append` and `read_recent` of
-- src/network/network_history.cpp over the private directory. The path is what `secure_local_path`
-- gives, with its error; the metadata is what the inspector gives.
pub mod Captured
use mathlib.Core.Option.{map as option_map}
use fedora_firewall_control.Dict.{lookup, assign}
use fedora_firewall_control.Network.History.{
  NetworkMetadata, Stored, Write, content, failed, refuse, replace, extend, append, read_records,
}
use fedora_firewall_control.Storage.{Node}
use fedora_firewall_control.Storage.Reading.{PrivateRead}
use fedora_firewall_control.Storage.Writing.{WriteSystem, WriteOutcome, write_private_file}
use fedora_firewall_control.Storage.Replacement.{
  Directory, ReplaceSystem, Replaced, replace_private_file_atomically,
}
use fedora_firewall_control.Storage.Replacement.Atomic.{last_state}
use fedora_firewall_control.Storage.Replacement.Refined.{base_name}
use fedora_firewall_control.Common.{
  Bool, true, false, ◌&&◌, Option, none, some, List, [], ◌++◌, map, if◌then◌else◌, is_empty,
}
use fedora_firewall_control.Text.{Text, lit, text_eq}

-- The result of a store's operation, with the directory behind it.
pub record Performed : Type 0 where
  pub saved : Bool
  pub result : Text
  pub directory : Directory

abbrev pub after_replace : Text → Directory → Replaced → Performed
after_replace path d r = record {
  saved = r.succeeded;
  result = if r.succeeded then path else r.error;
  directory = last_state d r.states;
}

put : Text → Option Node → Directory → Directory
unfolding assign
put name none d = d
put name (some n) d = assign name n d

unfoldable pub after_write : Text → Directory → WriteOutcome → Performed
unfolding put base_name
after_write path d o = record {
  saved = o.succeeded;
  result = if o.succeeded then path else o.error;
  directory = put (base_name path) o.file d;
}

-- The answers to both ways of writing.
pub record HistorySystem : Type 0 where
  pub replacing : ReplaceSystem
  pub extending : WriteSystem

unfoldable pub perform : HistorySystem → Text → Text → Write → Directory → Option Performed
unfolding replace_private_file_atomically write_private_file after_write lookup base_name
perform sys path error (refuse why) d = some (record { saved = false; result = why; directory = d })
perform sys path error (replace new) d =
    option_map (after_replace path d)
      (replace_private_file_atomically sys.replacing path new error d)
perform sys path error (extend new) d =
    option_map (after_write path d)
      (write_private_file sys.extending new true error (lookup (base_name path) d))

abbrev error_of : Stored → Text
error_of (content existing) = []
error_of (failed error) = error

-- `NetworkHistoryStore::append`.
unfoldable pub append_history :
    HistorySystem → Text × Text → Stored → NetworkMetadata → Bool → Directory → Option Performed
unfolding perform append
append_history sys (path, error) found m vpn_active d =
    if is_empty path
    then some (record { saved = false; result = error; directory = d })
    else perform sys path (error_of found) (append found m vpn_active) d

pub record SavedNetworkHistory : Type 0 where
  pub records : List Text
  pub available : Bool
  pub result : Text

-- `read_recent` and `NetworkEvidenceRecorder::read_history`.
unfoldable pub read_history : Text × Text → PrivateRead → SavedNetworkHistory
unfolding read_records text_eq
read_history (path, error) found =
    if is_empty path
    then record { records = []; available = false; result = error }
    else if found.succeeded
    then record { records = read_records found.text; available = true; result = path }
    else record {
      records = [];
      available = false;
      result =
          if text_eq found.error (lit "No such file or directory")
          then lit "no network metadata history yet"
          else found.error;
    }

-- What the inspector of the metadata gives.
pub record Lookup : Type 0 where
  pub metadata : NetworkMetadata
  pub public_ip_lookup_succeeded : Bool

pub record NetworkCapture : Type 0 where
  pub lookup : Lookup
  pub saved : Bool
  pub storage_result : Text

abbrev pub successful : NetworkCapture → Bool
successful c = c.lookup.public_ip_lookup_succeeded && c.saved

unfoldable pub history_status : NetworkCapture → Text
history_status c = if c.saved then c.storage_result else lit "not saved: " ++ c.storage_result

unfoldable pub display_status : SavedNetworkHistory → Text
display_status h = if h.available then h.result else lit "history unavailable: " ++ h.result

abbrev captured : Lookup → Performed → NetworkCapture × Directory
captured l p = (record { lookup = l; saved = p.saved; storage_result = p.result }, p.directory)

-- The capture, and the directory behind it.
unfoldable pub capture :
    HistorySystem
    → Text × Text
    → Stored
    → Lookup
    → Bool
    → Directory
    → Option (NetworkCapture × Directory)
unfolding append_history
capture sys store found l vpn_active d =
    if l.public_ip_lookup_succeeded
    then option_map (captured l) (append_history sys store found l.metadata vpn_active d)
    else some
        (record { lookup = l; saved = false; storage_result = lit "public-IP lookup failed" }, d)
