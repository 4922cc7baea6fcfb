-- ===== src/Storage.antt =====
-- src/core/secure_storage.cpp: the checks on a path, a directory and a file. An error is a text,
-- and `none` is success. What a system call answers is an argument.
pub mod Paths
pub mod Reading
pub mod Writing
pub mod Replacement
use fedora_firewall_control.Common.{
  ℕ, Bool, true, false, not, ◌&&◌, ◌||◌, Option, none, some, List, [], ◌∷◌, ◌++◌, ◌==◌,
  if◌then◌else◌, is_empty, any, reverse,
}
use fedora_firewall_control.Text.{Text, lit, text_eq}

pub data LocalStorageArea : Type 0 where
  config state : LocalStorageArea

-- No separator of either kind, and no NUL.
unfoldable pub safe_filename : Text → Bool
unfolding text_eq
safe_filename filename =
    not (is_empty filename)
    && not (text_eq filename (lit "."))
    && not (text_eq filename (lit ".."))
    && not (any (λ c. c == b'/' || c == b'\\') filename)
    && not (any (λ c. c == 0) filename)

pub data FileKind : Type 0 where
  regular directory symbolic_link other_kind : FileKind

-- The fields of `struct stat` that are read, with the owner compared to the user.
pub record FileStatus : Type 0 where
  pub kind : FileKind
  pub owned : Bool
  pub links : ℕ

abbrev pub is_directory : FileKind → Bool
is_directory directory = true
is_directory _ = false

abbrev pub is_regular : FileKind → Bool
is_regular regular = true
is_regular _ = false

-- A call that gives a status fails with an error.
pub data Status : Type 0 where
  status_failed : Text → Status
  status : FileStatus → Status

-- `chmod` runs only after the checks; its answer is the last argument.
unfoldable pub private_directory : Status → Option Text → Option Text
private_directory (status_failed why) chmod_error = some why
private_directory (status s) chmod_error =
    if not (is_directory s.kind)
    then some (lit "storage path is not a directory")
    else if not s.owned
    then some (lit "storage directory is not owned by the current user")
    else chmod_error

unfoldable pub private_regular_file : Status → Option Text
private_regular_file (status_failed why) = some why
private_regular_file (status s) =
    if not (is_regular s.kind)
    then some (lit "storage path is not a regular file")
    else if not s.owned
    then some (lit "storage file is not owned by the current user")
    else if not (s.links == 1)
    then some (lit "storage file must not have hard links")
    else none

-- A file's content beside its status.
pub record Node : Type 0 where
  pub status : FileStatus
  pub text : Text

-- What `O_CREAT` makes.
abbrev pub created : Node
created = record { status = record { kind = regular; owned = true; links = 1 }; text = [] }
