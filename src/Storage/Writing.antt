-- ===== src/Storage/Writing.antt =====
-- `write_all` and `write_private_file` of src/core/secure_storage.cpp.
pub mod Laws
use mathlib.Core.Option
use fedora_firewall_control.Storage.{
  Node, Status, status, status_failed, private_regular_file, created,
}
use fedora_firewall_control.Common.{
  ℕ, Bool, true, false, Option, none, some, List, [], ◌∷◌, ◌++◌, if◌then◌else◌, is_empty, take,
  drop,
}
use fedora_firewall_control.Text.{Text, lit}

-- What `write` answers: it takes n + 1 bytes or all that are offered.
pub data FileWrite : Type 0 where
  taken : ℕ → FileWrite
  retried no_progress : FileWrite
  write_refused : Text → FileWrite

-- What has been written, and whether all of it was; the contents written so far, one for each
-- write that took some.
pub record Written : Type 0 where
  pub error : Option Text
  pub prefixes : List Text

abbrev after_write : Text → Written → Written
after_write done w = record w { prefixes = done ∷ w.prefixes }

-- `none` where the answers run out.
unfoldable pub write_from : Text → Text → List FileWrite → Option Written
write_from done [] ws = some (record { error = none; prefixes = [] })
write_from done (b ∷ bs) [] = none
write_from done (b ∷ bs) (taken n ∷ ws) =
    let done' = done ++ (b ∷ take n bs) in
    Option.map (after_write done') (write_from done' (drop n bs) ws)
write_from done (b ∷ bs) (retried ∷ ws) = write_from done (b ∷ bs) ws
write_from done (b ∷ bs) (no_progress ∷ ws) =
    some (record { error = some (lit "storage write made no progress"); prefixes = [] })
write_from done (b ∷ bs) (write_refused why ∷ ws) =
    some (record { error = some why; prefixes = [] })

-- Writing after the text that the descriptor's file has.
unfoldable pub write_all : Text → Text → List FileWrite → Option Written
unfolding write_from
write_all done bytes_to_write ws = write_from done bytes_to_write ws

-- The last text that a descriptor's file has had.
unfoldable pub last_text : Text → List Text → Text
last_text done [] = done
last_text done (t ∷ ts) = last_text t ts

-- The answers to `write_private_file`. The status is the one `fstat` gives of the open file.
pub record WriteSystem : Type 0 where
  pub open_error : Option Text
  pub stat_error : Option Text
  pub fchmod_error : Option Text
  pub truncate_error : Option Text
  pub seek_error : Option Text
  pub writes : List FileWrite
  pub fsync_error : Option Text
  pub close_error : Option Text

pub record WriteOutcome : Type 0 where
  pub succeeded : Bool
  pub error : Text
  pub file : Option Node

abbrev ended : Option Text → Text → Option Node → WriteOutcome
ended none error file = record { succeeded = true; error = error; file = file }
ended (some why) error file = record { succeeded = false; error = why; file = file }

first_error : Option Text → Option Text → Option Text
first_error (some why) rest = some why
first_error none rest = rest

-- `fstat` of an open file.
unfoldable pub fstat : Option Text → Node → Status
fstat none n = status n.status
fstat (some why) n = status_failed why

-- An error that is already there stays when `fchmod` fails.
unfoldable pub kept_error : Text → Text → Text
kept_error error why = if is_empty error then why else error

-- The file once `ftruncate` has answered.
unfoldable pub truncated : Option Text → Node → Node
truncated none n = record n { text = [] }
truncated (some why) n = n

-- The part after the descriptor has been checked.
unfoldable pub fill : WriteSystem → Text → Bool → Text → Node → Option WriteOutcome
unfolding write_all last_text first_error truncated
fill sys bytes_to_write at_end error n =
    elim (if at_end then none else first_error sys.truncate_error sys.seek_error) [
      | some why ↦ some (ended (some why) error (some (truncated sys.truncate_error n)))
      | none ↦
          let start = if at_end then n.text else [] in
          elim (write_all start bytes_to_write sys.writes) [
            | none ↦ none
            | some w ↦ some (
                ended (first_error w.error (first_error sys.fsync_error sys.close_error)) error
                  (some (record n { text = last_text start w.prefixes })))
          ]
    ]

unfoldable pub write_checked : WriteSystem → Text → Bool → Text → Node → Option WriteOutcome
unfolding private_regular_file fill fstat kept_error
write_checked sys bytes_to_write at_end error n =
    elim (private_regular_file (fstat sys.stat_error n)) [
      | some why ↦ some (ended (some why) error (some n))
      | none ↦ elim sys.fchmod_error [
        | some why ↦ some (ended (some (kept_error error why)) error (some n))
        | none ↦ fill sys bytes_to_write at_end error n
      ]
    ]

abbrev pub opened : Option Node → Node
opened none = created
opened (some n) = n

-- The file at the path before and after; `none` is a path with no file.
unfoldable pub write_private_file :
    WriteSystem → Text → Bool → Text → Option Node → Option WriteOutcome
unfolding write_checked
write_private_file sys bytes_to_write at_end error file = elim sys.open_error [
  | some why ↦ some (ended (some why) error file)
  | none ↦ write_checked sys bytes_to_write at_end error (opened file)
]
