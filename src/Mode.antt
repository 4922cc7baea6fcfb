-- ===== src/Mode.antt =====
-- src/security/operating_mode.cpp: the assessment mode and its stored value.
pub mod Storage
use fedora_firewall_control.Common.{
  Bool, true, false, Option, none, some, [], ◌++◌, if◌then◌else◌, take,
}
use fedora_firewall_control.Text.{Text, lit, text_eq}
use fedora_firewall_control.Text.Search.{find_char}

pub data OperatingMode : Type 0 where
  normal hostile_network : OperatingMode

pub data OperatingModeLoadStatus : Type 0 where
  defaulted available invalid : OperatingModeLoadStatus

pub record OperatingModeLoadResult : Type 0 where
  pub mode : OperatingMode
  pub status : OperatingModeLoadStatus
  pub diagnostic : Text

unfoldable pub to_string : OperatingMode → Text
to_string hostile_network = lit "DEF CON / POSSIBLE HOSTILE"
to_string normal = lit "NORMAL"

abbrev pub is_hostile : OperatingMode → Bool
is_hostile hostile_network = true
is_hostile normal = false

unfoldable pub parse_operating_mode : Text → Option OperatingMode
unfolding text_eq
parse_operating_mode value =
    if text_eq value (lit "normal")
    then some normal
    else if text_eq value (lit "hostile")
    then some hostile_network
    else none

-- What the storage functions of src/core/secure_storage.cpp and `std::filesystem::exists` report
-- to `load`. A failure carries its message.
pub data StoredMode : Type 0 where
  no_path : Text → StoredMode
  absent : StoredMode
  not_inspected : Text → StoredMode
  not_readable : Text → StoredMode
  content : Text → StoredMode

abbrev fail_safe : Text → OperatingModeLoadResult
fail_safe why = record { mode = hostile_network; status = invalid; diagnostic = why }

unfoldable pub first_line : Text → Text
unfolding find_char
first_line value = elim (find_char value b'\n') [ none ↦ value | some newline ↦ take newline value ]

loaded : Option OperatingMode → OperatingModeLoadResult
loaded (some m) = record { mode = m; status = available; diagnostic = [] }
loaded none = fail_safe (lit "assessment-mode storage contains an unrecognized value")

unfoldable pub load : StoredMode → OperatingModeLoadResult
unfolding loaded first_line find_char parse_operating_mode
load (no_path error) = fail_safe (lit "could not resolve assessment-mode storage: " ++ error)
load absent = record { mode = normal; status = defaulted; diagnostic = [] }
load (not_inspected error) = fail_safe (lit "could not inspect assessment-mode storage: " ++ error)
load (not_readable error) = fail_safe (lit "could not read assessment-mode storage: " ++ error)
load (content value) = loaded (parse_operating_mode (first_line value))

-- What `save` hands to `write_private_file`.
unfoldable pub saved_value : OperatingMode → Text
saved_value hostile_network = lit "hostile"
saved_value normal = lit "normal"
