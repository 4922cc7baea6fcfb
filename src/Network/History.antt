-- ===== src/Network/History.antt =====
-- src/network/network_history.cpp: the owner-only history of network observations. What the
-- storage functions of src/core/secure_storage.cpp answer is an argument.
pub mod Record
pub mod Bounds
use fedora_firewall_control.Common.{
  ℕ, suc, ◌+◌, ◌*◌, Bool, not, ◌&&◌, ◌||◌, List, [], ◌∷◌, ◌++◌, map, reverse, ltb, leb, ◌==◌,
  if◌then◌else◌, length, is_empty, drop, filter,
}
use fedora_firewall_control.Text.{Text, lit, text_eq}
use fedora_firewall_control.Text.Words.{lines}

abbrev pub maximum_history_records : ℕ
maximum_history_records = 512

abbrev pub maximum_history_bytes : ℕ
maximum_history_bytes = 256 * 1024

unfoldable pub history_field : Text → Text
history_field value = map (λ c. if ltb c 32 || c == 0x7f then b' ' else c) value

-- `records.push_back(line)`, and the oldest record goes when there are too many.
unfoldable pub push_record : Text → List Text → List Text
push_record line records =
    let longer = records ++ line ∷ [] in
    if leb maximum_history_records (length longer) then drop 1 longer else longer

unfoldable pub collect_records : List Text → List Text → List Text
unfolding push_record
collect_records records [] = records
collect_records records (line ∷ rest) =
    collect_records (if is_empty line then records else push_record line records) rest

-- The loop from the newest record back, until the bytes do not fit.
unfoldable pub retain : Text → List Text → Text
retain retained [] = retained
retain retained (line ∷ older) =
    let longer = retain (line ++ b'\n' ∷ retained) older in
    if ltb maximum_history_bytes (length retained + (length line + 1)) then retained else longer

unfoldable pub retain_recent_records : Text → Text
unfolding retain collect_records lines
retain_recent_records content = retain [] (reverse (collect_records [] (lines content)))

count_newlines : Text → ℕ
count_newlines [] = 0
count_newlines (c ∷ cs) = if c == b'\n' then suc (count_newlines cs) else count_newlines cs

-- include/ffc/network_metadata.hpp, in the order of the record's fields
pub record NetworkMetadata : Type 0 where
  pub observed_at_utc : Text
  pub public_ip : Text
  pub default_interface : Text
  pub default_gateway : Text
  pub connection_profile : Text
  pub wifi_ssid : Text
  pub wifi_bssid : Text
  pub wifi_security : Text
  pub country : Text
  pub timezone : Text
  pub isp : Text
  pub autonomous_system : Text

-- The cleaned fields, each with a tab behind it.
unfoldable pub tabbed : List Text → Text
unfolding history_field
tabbed [] = []
tabbed (value ∷ rest) = history_field value ++ (b'\t' ∷ tabbed rest)

abbrev pub fields_of : NetworkMetadata → List Text
fields_of m =
    m.observed_at_utc ∷ m.public_ip ∷ m.default_interface ∷ m.default_gateway ∷ m.connection_profile
    ∷ m.wifi_ssid ∷ m.wifi_bssid ∷ m.wifi_security ∷ m.country ∷ m.timezone ∷ m.isp
    ∷ m.autonomous_system ∷ []

unfoldable pub history_record : NetworkMetadata → Bool → Text
unfolding tabbed
history_record m vpn_active =
    tabbed (fields_of m) ++ ((if vpn_active then lit "active" else lit "inactive") ++ b'\n' ∷ [])

-- The answer of `read_private_file` and the write that `append` then makes.
pub data Stored : Type 0 where
  content : Text → Stored
  failed : Text → Stored

pub data Write : Type 0 where
  refuse : Text → Write
  replace : Text → Write
  extend : Text → Write

write_readable : Text → Text → Write
write_readable existing new =
    let retained = retain_recent_records existing in
    if not (text_eq retained existing)
      || leb maximum_history_records (count_newlines existing)
      || ltb maximum_history_bytes (length retained + length new)
    then replace (retained ++ new)
    else extend new

-- `append` behind the resolution of the path.
unfoldable pub append : Stored → NetworkMetadata → Bool → Write
unfolding write_readable history_record retain_recent_records count_newlines text_eq
append (content existing) m vpn_active = write_readable existing (history_record m vpn_active)
append (failed error) m vpn_active =
    if not (text_eq error (lit "No such file or directory"))
      && not (text_eq error (lit "storage file exceeds safe size limit"))
    then refuse error
    else replace (history_record m vpn_active)

-- `read_recent` on a file that could be read.
unfoldable pub read_records : Text → List Text
unfolding lines
read_records text = filter (λ line. not (is_empty line)) (lines text)
