-- ===== src/Storage/Replacement/Refined.antt =====
-- `replace_private_file_atomically` of src/core/secure_storage.cpp against an atomic write.
use fedora_firewall_control.Common.{
  subst, some-injective, ◌+◌, ◌≡◌, refl, inl, inr, none, some, arith, Bool-cases, length, drop,
  Option-cases, not, ◌||◌, ◌==◌, if◌then◌else◌, take,
}
use fedora_firewall_control.Storage.Replacement.{
  Directory, allocate, ReplaceSystem, Replaced, allocated, existing_error, after_allocation,
  replace_in, Allocated, exhausted, allocation_failed, replace_at, replace_private_file_atomically,
}
use fedora_firewall_control.Storage.Replacement.Atomic.{IsAtomic}
use fedora_firewall_control.Text.{Text, lit, text_eq}
use fedora_firewall_control.Text.Search.{rfind_char}
use fedora_firewall_control.Storage.Writing.{kept_error, opened}
use fedora_firewall_control.Storage.{safe_filename, private_directory}
use fedora_firewall_control.Command.Run.{parent}
use fedora_firewall_control.Storage.Replacement.Filled.{
  unchanged-IsAtomic, allocate-IsFresh, fill_temporary-IsAtomic,
}

-- The name that a path ends with.
unfoldable pub base_name : Text → Text
base_name path = elim (rfind_char path b'/') [ none ↦ path | some slash ↦ drop (slash + 1) path ]

replace_in-IsAtomic :
    (sys : ReplaceSystem) (filename content error : Text) (d : Directory) (r : Replaced)
    → replace_in sys filename content error d ≡ some r
    → IsAtomic sys filename content d r
unfolding replace_in
replace_in-IsAtomic sys filename content error d r e = elim (Option-cases sys.open_error) [
  | inr (why, unopened) ↦
      subst Goal (some-injective (ground (arith, unopened)))
        (unchanged-IsAtomic sys filename content d why)
  | inl opened ↦ elim (Option-cases (existing_error sys filename d)) [
    | inr (why, unsafe) ↦
        subst Goal (some-injective (ground (arith, opened, unsafe)))
          (unchanged-IsAtomic sys filename content d why)
    | inl safe ↦ allocated_lem (allocate sys filename d 128 0) refl (ground (arith, opened, safe))
  ]
]
  where
    Goal : Replaced → Type 0
    Goal r = IsAtomic sys filename content d r

    allocated_lem :
        (a : Allocated)
        → allocate sys filename d 128 0 ≡ a
        → after_allocation sys filename content error d a ≡ some r
        → IsAtomic sys filename content d r
    allocated_lem exhausted k l =
        subst Goal (some-injective l) (unchanged-IsAtomic sys filename content d _)
    allocated_lem (allocation_failed why) k l =
        subst Goal (some-injective l) (unchanged-IsAtomic sys filename content d why)
    allocated_lem (allocated name) k l =
        fill_temporary-IsAtomic sys filename name content d
          (allocate-IsFresh sys filename name d 128 0 k) error r l

replace_at-IsAtomic :
    (sys : ReplaceSystem) (parent filename content error : Text) (d : Directory) (r : Replaced)
    → replace_at sys parent filename content error d ≡ some r
    → IsAtomic sys filename content d r
unfolding replace_at
replace_at-IsAtomic sys parent filename content error d r e =
    elim (Bool-cases (text_eq parent (lit "/") || not (safe_filename filename))) [
      | inl unsafe ↦
          subst (λ r. IsAtomic sys filename content d r) (some-injective (ground (arith, unsafe)))
            (unchanged-IsAtomic sys filename content d
              (kept_error error (lit "storage replacement directory is unsafe")))
      | inr safe ↦ elim (Option-cases (private_directory sys.directory_status sys.chmod_error)) [
        | inr (why, denied) ↦
            subst (λ r. IsAtomic sys filename content d r)
              (some-injective (ground (arith, safe, denied)))
              (unchanged-IsAtomic sys filename content d
                (kept_error why (lit "storage replacement directory is unsafe")))
        | inl private ↦
            replace_in-IsAtomic sys filename content error d r (ground (arith, safe, private))
      ]
    ]

-- A replacement refines an atomic write of the name at the end of the path. Through that name its
-- states show the old file and from some state on the new one, with the content whole; success
-- means that the last state shows the new one, and a failure whose cause is not the last `fsync`
-- that none does. Any other name has in the last state the file it had, if `unlinkat` works.
pub replace_private_file_atomically-IsAtomic :
    (sys : ReplaceSystem) (path content error : Text) (d : Directory) (r : Replaced)
    → replace_private_file_atomically sys path content error d ≡ some r
    → IsAtomic sys (base_name path) content d r
unfolding replace_private_file_atomically base_name
replace_private_file_atomically-IsAtomic sys path content error d r e =
    elim (Option-cases (rfind_char path b'/')) [
      | inl bare ↦
          subst (λ r. IsAtomic sys (base_name path) content d r)
            (some-injective (ground (arith, bare)))
            (unchanged-IsAtomic sys (base_name path) content d
              (lit "storage replacement path is invalid"))
      | inr (slash, found) ↦
          subst (λ f. IsAtomic sys f content d r)
            (let named : drop (slash + 1) path ≡ base_name path = ground (arith, found) in named)
            (elim (Bool-cases (slash + 1 == length path)) [
              | inl last ↦
                  subst (λ r. IsAtomic sys (drop (slash + 1) path) content d r)
                    (some-injective (ground (arith, found, last)))
                    (unchanged-IsAtomic sys (drop (slash + 1) path) content d
                      (lit "storage replacement path is invalid"))
              | inr inner ↦
                  replace_at-IsAtomic sys (if slash == 0 then lit "/" else take slash path)
                    (drop (slash + 1) path) content error d r (ground (arith, found, inner))
            ])
    ]
