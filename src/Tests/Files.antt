-- ===== src/Tests/Files.antt =====
-- The private files at concrete answers of the system.
use fedora_firewall_control.Text.Decimal.{to_string}
use fedora_firewall_control.Command.Communicate.{bytes, read_interrupted, end_of_file}
use fedora_firewall_control.Common.{◌≡◌, refl, true, false, none, some, List, [], ◌∷◌, ◌++◌}
use fedora_firewall_control.Storage.{
  safe_filename, private_regular_file, Node, status, state, regular, directory, status_failed,
}
use fedora_firewall_control.Storage.Paths.{
  directory_error, secure_local_path, base_directory, Place, missing,
}
use fedora_firewall_control.Storage.Paths.Shape.{secure_local_path-IsInside, IsInside}
use fedora_firewall_control.Storage.Reading.{read_private_descriptor, ReadSystem}
use fedora_firewall_control.Storage.Reading.Chunks.{
  Agrees, read_private_descriptor-Agrees, gives_end, gives_again, gives_bytes,
}
use fedora_firewall_control.Storage.Replacement.{
  Directory, replace_private_file_atomically, ReplaceSystem, Replaced,
}
use fedora_firewall_control.Storage.Replacement.Atomic.{IsAtomic}
use fedora_firewall_control.Storage.Replacement.Refined.{
  base_name, replace_private_file_atomically-IsAtomic,
}
use fedora_firewall_control.Storage.Writing.{
  write_private_file, FileWrite, WriteSystem, WriteOutcome, taken, retried, write_refused,
}
use fedora_firewall_control.Storage.Writing.Laws.{write_private_file-filled}
use fedora_firewall_control.Text.{Text, lit}

abbrev clean_write : List FileWrite → WriteSystem
clean_write ws = record {
  open_error = none;
  stat_error = none;
  fchmod_error = none;
  truncate_error = none;
  seek_error = none;
  writes = ws;
  fsync_error = none;
  close_error = none;
}

abbrev holding_text : Text → Node
holding_text t = record { status = record { kind = regular; owned = true; links = 1 }; text = t }

abbrev written : WriteOutcome
written = record { succeeded = true; error = []; file = some (holding_text (lit "abcd")) }

writes_in_parts :
    write_private_file
      (clean_write (taken 0 ∷ retried ∷ taken 9 ∷ []))
      (lit "cd")
      true
      []
      (some (holding_text (lit "ab")))
    ≡ some written
unfolding write_private_file lit
writes_in_parts = refl

write_private_file-filled_example :
    (private_regular_file (status (holding_text (lit "ab")).status) ≡ none)
    × (written.file ≡ some (holding_text (lit "ab" ++ lit "cd")))
write_private_file-filled_example =
    write_private_file-filled (clean_write (taken 0 ∷ retried ∷ taken 9 ∷ [])) (lit "cd") true []
      (some (holding_text (lit "ab"))) written writes_in_parts refl

abbrev linked : Node
linked = record { status = record { kind = regular; owned = true; links = 2 }; text = b'x' ∷ [] }

abbrev full_disk : ReplaceSystem
full_disk = record {
  directory_status = status (record { kind = directory; owned = true; links = 2 });
  chmod_error = none;
  open_error = none;
  lookup_error = none;
  process = 7;
  create_error = λ _. none;
  stat_error = none;
  fchmod_error = none;
  writes = taken 1 ∷ write_refused (lit "No space left on device") ∷ [];
  fsync_error = none;
  close_error = none;
  rename_error = none;
  directory_fsync_error = none;
  unlink_error = none;
}

abbrev enough_disk : ReplaceSystem
enough_disk = record full_disk { writes = taken 1 ∷ taken 9 ∷ [] }

abbrev home_directory : Directory
home_directory = (lit "mode", holding_text (lit "normal")) ∷ []

abbrev mode_path : Text
mode_path = lit "/home/u/mode"

replaced : Replaced
unfolding lit
replaced = record {
  succeeded = true;
  error = [];
  states =
      ((lit ".mode.tmp.7.0", holding_text []) ∷ home_directory)
      ∷ ((lit ".mode.tmp.7.0", holding_text (lit "ho")) ∷ home_directory)
      ∷ ((lit ".mode.tmp.7.0", holding_text (lit "hostile")) ∷ home_directory)
      ∷ ((lit "mode", holding_text (lit "hostile")) ∷ [])
      ∷ [];
}

replaces :
    replace_private_file_atomically enough_disk mode_path (lit "hostile") [] home_directory
    ≡ some replaced
unfolding replace_private_file_atomically replaced lit to_string
replaces = refl

failed_replacement : Replaced
unfolding lit
failed_replacement = record {
  succeeded = false;
  error = lit "No space left on device";
  states =
      ((lit ".mode.tmp.7.0", holding_text []) ∷ home_directory)
      ∷ ((lit ".mode.tmp.7.0", holding_text (lit "ho")) ∷ home_directory)
      ∷ home_directory
      ∷ [];
}

fails :
    replace_private_file_atomically full_disk mode_path (lit "hostile") [] home_directory
    ≡ some failed_replacement
unfolding replace_private_file_atomically failed_replacement lit to_string
fails = refl

replace_private_file_atomically-IsAtomic_example :
    IsAtomic enough_disk (base_name mode_path) (lit "hostile") home_directory replaced
replace_private_file_atomically-IsAtomic_example =
    replace_private_file_atomically-IsAtomic enough_disk mode_path (lit "hostile") [] home_directory
      replaced replaces

abbrev chunked : ReadSystem
chunked = record {
  open_error = none;
  opened = status (record { kind = regular; owned = true; links = 1 });
  reads = bytes b'a' [] ∷ read_interrupted ∷ bytes b'b' (b'c' ∷ []) ∷ end_of_file ∷ [];
  close_error = none;
}

read_private_descriptor-Agrees_example :
    Agrees 3
      (lit "old")
      (b'a' ∷ b'b' ∷ b'c' ∷ [])
      (read_private_descriptor chunked 3 [] (lit "old"))
unfolding private_regular_file
read_private_descriptor-Agrees_example =
    read_private_descriptor-Agrees chunked 3 [] (lit "old") (b'a' ∷ b'b' ∷ b'c' ∷ []) refl refl refl
      (gives_bytes b'a' [] (gives_again (gives_bytes b'b' (b'c' ∷ []) (gives_end []) refl)) refl)

abbrev place : Place
place = record {
  xdg = some [];
  home = some (lit "/home/u");
  create_error = none;
  exists = missing;
  directory_status = status_failed [];
  chmod_error = none;
}

abbrev program_mode_path : Text
program_mode_path = lit "/home/u/.local/state/fedora-firewall-control/mode"

path_runs : secure_local_path state (lit "mode") true place [] ≡ some (program_mode_path, [])
unfolding secure_local_path lit
path_runs = refl

secure_local_path-IsInside_example :
    (safe_filename (lit "mode") ≡ true)
    × ((base : Text) × (base_directory state place ≡ some base)
        × IsInside base (lit "mode") program_mode_path)
    × (directory_error true place ≡ some none)
    × ([] ≡ lit "")
    × (base_name program_mode_path ≡ lit "mode")
unfolding lit
secure_local_path-IsInside_example =
    secure_local_path-IsInside state (lit "mode") true place [] program_mode_path [] path_runs refl
