-- ===== src/Credentials.antt =====
-- src/security/credentials.cpp: the ipify key, from the environment or from a private file. The
-- path is the result of `secure_local_path`, empty on an error, with its error.
pub mod RoundTrip
use mathlib.Core.Option.{map as option_map}
use fedora_firewall_control.Storage.Reading.{PrivateRead}
use fedora_firewall_control.Storage.Writing.{WriteSystem, WriteOutcome, write_private_file}
use fedora_firewall_control.Storage.{Node}
use fedora_firewall_control.Common.{
  Bool, false, not, ◌&&◌, ◌||◌, Option, none, some, [], map, leb, ◌==◌, if◌then◌else◌, length,
  is_empty, all,
}
use fedora_firewall_control.Text.{Text, lit, is_alnum}
use fedora_firewall_control.Text.Search.{take_until}

unfoldable pub is_valid_ipify_api_key : Text → Bool
unfolding is_alnum
is_valid_ipify_api_key key =
    not (is_empty key)
    && leb (length key) 128
    && all (λ c. is_alnum c || c == b'_' || c == b'-') key

-- The text up to the first newline.
unfoldable pub first_key_line : Text → Text
unfolding take_until
first_key_line key = take_until (λ c. c == b'\n') key

unfoldable pub stored_key : Text → PrivateRead → Text
unfolding is_valid_ipify_api_key first_key_line
stored_key path found =
    if is_empty path || not found.succeeded
    then []
    else if is_valid_ipify_api_key (first_key_line found.text)
    then first_key_line found.text
    else []

-- `FFC_IPIFY_API_KEY` counts if it is set and valid.
unfoldable pub load : Option Text → Text → PrivateRead → Text
unfolding stored_key is_valid_ipify_api_key
load none path found = stored_key path found
load (some environment_key) path found =
    if is_valid_ipify_api_key environment_key then environment_key else stored_key path found

pub record Saved : Type 0 where
  pub succeeded : Bool
  pub result : Text
  pub file : Option Node

abbrev unsaved : Text → Option Node → Saved
unsaved why file = record { succeeded = false; result = why; file = file }

abbrev pub saved_as : Text → WriteOutcome → Saved
saved_as path o = record {
  succeeded = o.succeeded;
  result = if o.succeeded then path else o.error;
  file = o.file;
}

-- The file at the path before and after; `none` where the answers run out.
unfoldable pub save : Text → Text × Text → WriteSystem → Option Node → Option Saved
unfolding is_valid_ipify_api_key write_private_file
save key (path, error) sys file =
    if not (is_valid_ipify_api_key key)
    then some (unsaved (lit "key format is invalid") file)
    else if is_empty path
    then some (unsaved error file)
    else option_map (saved_as path) (write_private_file sys key false error file)
