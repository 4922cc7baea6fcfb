-- ===== src/Storage/Replacement.antt =====
-- `replace_private_file_atomically` of src/core/secure_storage.cpp. The directory is a dictionary
-- of names; a run is the sequence of its states, one for each call that changes it, so that a crash
-- leaves one of them.
pub mod Atomic
pub mod Filled
pub mod Refined
use mathlib.Core.Option.{map as option_map}
use fedora_firewall_control.Storage.{
  Node, FileStatus, Status, status, safe_filename, private_directory, private_regular_file, created,
  is_regular,
}
use fedora_firewall_control.Storage.Writing.{
  Written, FileWrite, WriteSystem, fstat, kept_error, write_all, last_text,
}
use fedora_firewall_control.Common.{
  ℕ, zero, suc, ◌+◌, Bool, true, false, not, ◌&&◌, ◌||◌, Option, none, some, List, [], ◌∷◌, ◌++◌,
  map, ◌==◌, if◌then◌else◌, length, take, drop,
}
use fedora_firewall_control.Dict.{lookup, has_key, assign}
use fedora_firewall_control.Text.Decimal.{to_string}
use fedora_firewall_control.Text.{Text, lit, text_eq}
use fedora_firewall_control.Text.Search.{rfind_char, substr}
use fedora_firewall_control.Command.Run.{parent}

abbrev pub Directory : Type 0
Directory = List (Text × Node)

-- A map has no removal so far.
unfoldable pub erase : Text → Directory → Directory
unfolding text_eq
erase k [] = []
erase k ((j, n) ∷ d) = let rest = erase k d in if text_eq j k then rest else (j, n) ∷ rest

-- The answers to the calls. The files `existing` and the new one are in the directory itself.
pub record ReplaceSystem : Type 0 where
  pub directory_status : Status
  pub chmod_error : Option Text
  pub open_error : Option Text
  pub lookup_error : Option Text
  pub process : ℕ
  pub create_error : ℕ → Option Text
  pub stat_error : Option Text
  pub fchmod_error : Option Text
  pub writes : List FileWrite
  pub fsync_error : Option Text
  pub close_error : Option Text
  pub rename_error : Option Text
  pub directory_fsync_error : Option Text
  pub unlink_error : Option Text

pub record Replaced : Type 0 where
  pub succeeded : Bool
  pub error : Text
  pub states : List Directory

abbrev pub unchanged : Text → Replaced
unchanged why = record { succeeded = false; error = why; states = [] }

unfoldable pub temporary_name : Text → ℕ → ℕ → Text
unfolding to_string
temporary_name filename process attempt =
    lit "." ++ (filename ++ (lit ".tmp." ++ (to_string process ++ (lit "." ++ to_string attempt))))

pub data Allocated : Type 0 where
  allocated : Text → Allocated
  exhausted : Allocated
  allocation_failed : Text → Allocated

-- The attempts from one on. A name that is there makes `O_EXCL` fail with EEXIST.
unfoldable pub allocate : ReplaceSystem → Text → Directory → ℕ → ℕ → Allocated
unfolding temporary_name has_key
allocate sys filename d zero attempt = exhausted
allocate sys filename d (suc left) attempt =
    let name = temporary_name filename sys.process attempt in
    let rest = allocate sys filename d left (attempt + 1) in
    if has_key name d then rest else elim (sys.create_error attempt) [
      | none ↦ allocated name
      | some why ↦ allocation_failed why
    ]

unfoldable pub is_private : FileStatus → Bool
is_private s = is_regular s.kind && s.owned && s.links == 1

-- What `fstatat` finds at the name.
unfoldable pub existing_error : ReplaceSystem → Text → Directory → Option Text
unfolding is_private lookup
existing_error sys filename d = elim sys.lookup_error [
  | some why ↦ some why
  | none ↦ elim (lookup filename d) [
    | none ↦ none
    | some n ↦
        if is_private n.status
        then none
        else some (lit "storage file is not a private regular file")
  ]
]

with_text : Text → Directory → Text → Directory
unfolding assign
with_text name d t = assign name (record created { text = t }) d

-- After a failure the temporary file is removed, if `unlinkat` can.
unfoldable pub give_up : ReplaceSystem → Text → Text → List Directory → Directory → Replaced
unfolding erase
give_up sys name why states d = record {
  succeeded = false;
  error = why;
  states = elim sys.unlink_error [ none ↦ states ++ (erase name d ∷ []) | some _ ↦ states ];
}

-- The end of the run, with the temporary file complete: it has the text `moved`.
unfoldable pub publish :
    ReplaceSystem → Text → Text → Text → Text → List Directory → Directory → Replaced
unfolding give_up erase assign
publish sys filename name moved error states d = elim sys.rename_error [
  | some why ↦ give_up sys name why states d
  | none ↦
      let renamed = assign filename (record created { text = moved }) (erase name d) in
      elim sys.directory_fsync_error [
        | some why ↦ give_up sys name why (states ++ (renamed ∷ [])) renamed
        | none ↦ record { succeeded = true; error = error; states = states ++ (renamed ∷ []) }
      ]
]

first_of : Option Text → Option Text → Option Text
first_of (some why) b = some why
first_of none b = b

-- The descriptor that a failure leaves open is closed, and its error takes the place of the first.
unfoldable pub closing_error : Option Text → Text → Text
closing_error none why = why
closing_error (some late) why = late

-- What follows the writes to the temporary file.
unfoldable pub finish : ReplaceSystem → Text → Text → Text → Directory → Written → Replaced
unfolding publish give_up with_text first_of last_text closing_error
finish sys filename name error d w =
    let states = with_text name d [] ∷ map (with_text name d) w.prefixes in
    let filled = with_text name d (last_text [] w.prefixes) in
    elim (first_of w.error sys.fsync_error) [
      | some why ↦ give_up sys name (closing_error sys.close_error why) states filled
      | none ↦ elim sys.close_error [
        | some why ↦ give_up sys name why states filled
        | none ↦ publish sys filename name (last_text [] w.prefixes) error states filled
      ]
    ]

-- The temporary file from its creation on.
unfoldable pub fill_temporary :
    ReplaceSystem → Text → Text → Text → Text → Directory → Option Replaced
unfolding finish give_up write_all with_text private_regular_file fstat kept_error closing_error
fill_temporary sys filename name content error d =
    let start = with_text name d [] in
    elim (private_regular_file (fstat sys.stat_error created)) [
      | some why ↦ some (give_up sys name (closing_error sys.close_error why) (start ∷ []) start)
      | none ↦ elim sys.fchmod_error [
        | some why ↦ some (
            give_up sys name (closing_error sys.close_error (kept_error error why)) (start ∷ [])
              start)
        | none ↦ option_map (finish sys filename name error d) (write_all [] content sys.writes)
      ]
    ]

-- The end of the run for what the attempts gave.
unfoldable pub after_allocation :
    ReplaceSystem → Text → Text → Text → Directory → Allocated → Option Replaced
unfolding fill_temporary
after_allocation sys filename content error d exhausted =
    some (unchanged (lit "could not allocate private replacement file"))
after_allocation sys filename content error d (allocation_failed why) = some (unchanged why)
after_allocation sys filename content error d (allocated name) =
    fill_temporary sys filename name content error d

unfoldable pub replace_in : ReplaceSystem → Text → Text → Text → Directory → Option Replaced
unfolding existing_error allocate after_allocation
replace_in sys filename content error d = elim sys.open_error [
  | some why ↦ some (unchanged why)
  | none ↦ elim (existing_error sys filename d) [
    | some why ↦ some (unchanged why)
    | none ↦ after_allocation sys filename content error d (allocate sys filename d 128 0)
  ]
]

-- The tests on the two parts of the path.
unfoldable pub replace_at : ReplaceSystem → Text → Text → Text → Text → Directory → Option Replaced
unfolding safe_filename private_directory replace_in kept_error text_eq
replace_at sys parent filename content error d =
    if text_eq parent (lit "/") || not (safe_filename filename)
    then some (unchanged (kept_error error (lit "storage replacement directory is unsafe")))
    else elim (private_directory sys.directory_status sys.chmod_error) [
      | some why ↦ some (unchanged (kept_error why (lit "storage replacement directory is unsafe")))
      | none ↦ replace_in sys filename content error d
    ]

-- `d` is the directory that the path names.
unfoldable pub replace_private_file_atomically :
    ReplaceSystem → Text → Text → Text → Directory → Option Replaced
unfolding rfind_char replace_at substr
replace_private_file_atomically sys path content error d = elim (rfind_char path b'/') [
  | none ↦ some (unchanged (lit "storage replacement path is invalid"))
  | some slash ↦
      if slash + 1 == length path
      then some (unchanged (lit "storage replacement path is invalid"))
      else replace_at sys (if slash == 0 then lit "/" else take slash path) (drop (slash + 1) path)
          content error d
]
