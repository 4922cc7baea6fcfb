-- ===== src/Storage/Paths.antt =====
-- `secure_local_path` of src/core/secure_storage.cpp. The environment and the file system answer;
-- a path that is returned is nonempty, and the error stands beside it.
pub mod Shape
use fedora_firewall_control.Storage.{
  LocalStorageArea, config, state, Status, safe_filename, private_directory,
}
use fedora_firewall_control.Common.{
  ℕ, Bool, false, not, ◌||◌, Option, none, some, [], ◌∷◌, ◌++◌, ◌==◌, if◌then◌else◌, is_empty,
}
use fedora_firewall_control.Text.{Text, lit}

abbrev last_is : ℕ → Text → Bool
last_is c [] = false
last_is c (b ∷ []) = b == c
last_is c (b ∷ b' ∷ bs) = last_is c (b' ∷ bs)

-- `path / relative` of std::filesystem.
unfoldable pub join_path : Text → Text → Text
join_path path relative =
    if is_empty path || last_is b'/' path then path ++ relative else path ++ (b'/' ∷ relative)

-- `std::filesystem::exists` on the directory; on an error other than a missing path it throws.
pub data Existence : Type 0 where
  present missing exists_throws : Existence

-- The variables, and what the calls on the directory answer.
pub record Place : Type 0 where
  pub xdg : Option Text
  pub home : Option Text
  pub create_error : Option Text
  pub exists : Existence
  pub directory_status : Status
  pub chmod_error : Option Text

-- `value != nullptr && *value != '\0'`
unfoldable pub set_value : Option Text → Option Text
set_value none = none
set_value (some []) = none
set_value (some (c ∷ cs)) = some (c ∷ cs)

abbrev home_part : LocalStorageArea → Text
home_part config = lit ".config"
home_part state = lit ".local/state"

unfoldable pub base_directory : LocalStorageArea → Place → Option Text
unfolding set_value join_path
base_directory area p = elim (set_value p.xdg) [
  | some xdg ↦ some xdg
  | none ↦ elim (set_value p.home) [
    | some home ↦ some (join_path home (home_part area))
    | none ↦ none
  ]
]

-- The error of the checks on the directory, if any; the outer `none` is the exception.
unfoldable pub directory_error : Bool → Place → Option (Option Text)
unfolding private_directory
directory_error create_directory p = elim (if create_directory then p.create_error else none) [
  | some why ↦ some (some why)
  | none ↦ elim p.exists [
    | present ↦ some (private_directory p.directory_status p.chmod_error)
    | missing ↦ some none
    | exists_throws ↦ none
  ]
]

-- The path, which is empty on an error, and the error. `none` where `exists` throws.
unfoldable pub secure_local_path :
    LocalStorageArea → Text → Bool → Place → Text → Option (Text × Text)
unfolding safe_filename base_directory directory_error join_path
secure_local_path area filename create_directory p error =
    if not (safe_filename filename)
    then some ([], lit "storage filename is unsafe")
    else elim (base_directory area p) [
      | none ↦ some ([], lit "HOME and XDG storage variables are unavailable")
      | some base ↦ elim (directory_error create_directory p) [
        | none ↦ none
        | some (some why) ↦ some ([], why)
        | some none ↦
            some (join_path (join_path base (lit "fedora-firewall-control")) filename, error)
      ]
    ]
