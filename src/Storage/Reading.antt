-- ===== src/Storage/Reading.antt =====
-- `read_private_file` of src/core/secure_storage.cpp: the loop over the answers of `read`, and the
-- result as a function of the file, which the callers are modelled with.
pub mod Chunks
use mathlib.Core.Option.{map as option_map}
use fedora_firewall_control.Common.{
  ℕ, ◌+◌, Bool, true, false, Option, none, some, List, [], ◌∷◌, ◌++◌, ltb, if◌then◌else◌, length,
  map,
}
use fedora_firewall_control.Storage.{private_regular_file, Status}
use fedora_firewall_control.Storage.Writing.{opened}
use fedora_firewall_control.Text.{Text, lit}
use fedora_firewall_control.Command.Communicate.{
  ReadResult, bytes, end_of_file, read_interrupted, read_failed,
}

-- A private file: absent, refused with a message by the checks on its descriptor, or holding text.
pub data PrivateFile : Type 0 where
  absent : PrivateFile
  refused : Text → PrivateFile
  holding : Text → PrivateFile

-- The text that was read, and what the caller's string for the error holds.
pub record PrivateRead : Type 0 where
  pub succeeded : Bool
  pub text : Text
  pub error : Text

-- The call as the callers make it, with an error string that is empty. The read fails as soon as
-- the text is longer than the limit. What it has filled by then is not used by the callers.
unfoldable pub read_private_file : ℕ → PrivateFile → PrivateRead
read_private_file maximum_bytes absent = record {
  succeeded = false;
  text = [];
  error = lit "No such file or directory";
}
read_private_file maximum_bytes (refused why) = record { succeeded = false; text = []; error = why }
read_private_file maximum_bytes (holding content) =
    if ltb maximum_bytes (length content)
    then record { succeeded = false; text = []; error = lit "storage file exceeds safe size limit" }
    else record { succeeded = true; text = content; error = [] }

-- The loop: the content so far, the caller's error, and the answers. `none` where they run out.
unfoldable pub read_from : ℕ → Text → Text → List ReadResult → Option PrivateRead
read_from maximum_bytes content error [] = none
read_from maximum_bytes content error (read_interrupted ∷ rs) =
    read_from maximum_bytes content error rs
read_from maximum_bytes content error (read_failed why ∷ rs) =
    some (record { succeeded = false; text = content; error = why })
read_from maximum_bytes content error (end_of_file ∷ rs) =
    some (record { succeeded = true; text = content; error = error })
read_from maximum_bytes content error (bytes b bs ∷ rs) =
    let rest = read_from maximum_bytes (content ++ (b ∷ bs)) error rs in
    if ltb maximum_bytes (length content + length (b ∷ bs))
    then some (record {
      succeeded = false;
      text = content;
      error = lit "storage file exceeds safe size limit";
    })
    else rest

-- The answers to the reader.
pub record ReadSystem : Type 0 where
  pub open_error : Option Text
  pub opened : Status
  pub reads : List ReadResult
  pub close_error : Option Text

unfoldable pub closed : Option Text → PrivateRead → PrivateRead
closed none r = r
closed (some why) r =
    if r.succeeded then record { succeeded = false; text = r.text; error = why } else r

-- The call, with what the caller's two strings hold; a read that succeeds leaves the error as it was.
unfoldable pub read_private_descriptor : ReadSystem → ℕ → Text → Text → Option PrivateRead
unfolding read_from closed private_regular_file
read_private_descriptor sys maximum_bytes content error = elim sys.open_error [
  | some why ↦ some (record { succeeded = false; text = content; error = why })
  | none ↦ elim (private_regular_file sys.opened) [
    | some why ↦ some (record { succeeded = false; text = content; error = why })
    | none ↦ option_map (closed sys.close_error) (read_from maximum_bytes [] error sys.reads)
  ]
]
