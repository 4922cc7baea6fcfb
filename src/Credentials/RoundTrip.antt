-- ===== src/Credentials/RoundTrip.antt =====
-- Saving a key and loading it with src/security/credentials.cpp.
use fedora_firewall_control.Common.{
  ℕ, ◌≤◌, ◌≡◌, refl, true, false, ◌||◌, if◌then◌else◌, Option, none, some, [], ◌∷◌, arith, ◌==◌,
  all, inl, inr, Bool-cases, Option-cases, length, is_empty,
}
use fedora_firewall_control.Credentials.{
  load, is_valid_ipify_api_key, first_key_line, save, Saved, stored_key,
}
use fedora_firewall_control.Storage.{Node, status, private_regular_file}
use fedora_firewall_control.Storage.Writing.Laws.{write_private_file-filled}
use fedora_firewall_control.Storage.Reading.{
  read_private_file, PrivateFile, absent, holding, refused,
}
use fedora_firewall_control.Storage.Writing.{WriteSystem, write_private_file}
use fedora_firewall_control.Text.{Text, is_alnum}
use fedora_firewall_control.Text.Search.{take_until}

-- What the reader finds in a private file.
abbrev pub file_of : Option Node → PrivateFile
file_of none = absent
file_of (some n) = elim (private_regular_file (status n.status)) [
  | none ↦ holding n.text
  | some why ↦ refused why
]

valid_byte : (c : ℕ) → (is_alnum c || c == b'_' || c == b'-') ≡ true → (c == b'\n') ≡ false
unfolding is_alnum
valid_byte c h = ground arith

take_until-all :
    (key : Text)
    → all (λ c. is_alnum c || c == b'_' || c == b'-') key ≡ true
    → take_until (λ c. c == b'\n') key ≡ key
unfolding take_until
take_until-all [] h = refl
take_until-all (c ∷ cs) h = ground (arith, valid_byte c, take_until-all cs)

first_key_line-valid : (key : Text) → is_valid_ipify_api_key key ≡ true → first_key_line key ≡ key
unfolding is_valid_ipify_api_key first_key_line
first_key_line-valid key h = ground (arith, take_until-all key)

valid_length : (key : Text) → is_valid_ipify_api_key key ≡ true → length key ≤ 128
unfolding is_valid_ipify_api_key
valid_length key h = ground arith

-- The key of the environment if it is set and valid, else the other.
abbrev pub preferred : Option Text → Text → Text
preferred none key = key
preferred (some k) key = if is_valid_ipify_api_key k then k else key

load_holding :
    (key path : Text) (environment : Option Text) (limit : ℕ)
    → is_valid_ipify_api_key key ≡ true
    → is_empty path ≡ false
    → 128 ≤ limit
    → load environment path (read_private_file limit (holding key)) ≡ preferred environment key
unfolding load read_private_file stored_key
load_holding key path none limit h p l =
    ground (arith, first_key_line-valid key h, valid_length key h)
load_holding key path (some k) limit h p l =
    ground (arith, first_key_line-valid key h, valid_length key h)

-- A key that `save` has written is loaded again from its file, whether the variable of the
-- environment is unset or holds an invalid key; a valid key of the environment comes before it.
pub load-save :
    (key path error : Text) (sys : WriteSystem) (file : Option Node) (limit : ℕ) (s : Saved)
    (environment : Option Text)
    → save key (path, error) sys file ≡ some s
    → s.succeeded ≡ true
    → 128 ≤ limit
    → load environment path (read_private_file limit (file_of s.file)) ≡ preferred environment key
unfolding save
load-save key path error sys file limit s environment e k l =
    elim (Bool-cases (is_valid_ipify_api_key key)) [
      | inr invalid ↦ ground (arith, invalid)
      | inl valid ↦ elim (Bool-cases (is_empty path)) [
        | inl nowhere ↦ ground (arith, valid, nowhere)
        | inr somewhere ↦ elim (Option-cases (write_private_file sys key false error file)) [
          | inl unanswered ↦ ground (arith, valid, somewhere, unanswered)
          | inr (o, found) ↦
              let wrote : o.succeeded ≡ true = ground (arith, valid, somewhere, found) in
              let filled = write_private_file-filled sys key false error file o found wrote in
              let held : file_of s.file ≡ holding key =
                ground (arith, valid, somewhere, found, filled) in
              rw held (load_holding key path environment limit valid somewhere l)
        ]
      ]
    ]
