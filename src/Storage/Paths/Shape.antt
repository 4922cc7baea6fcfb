-- ===== src/Storage/Paths/Shape.antt =====
-- The path that `secure_local_path` of src/core/secure_storage.cpp gives.
use mathlib.Core.List.{append_assoc}
use fedora_firewall_control.Common.{
  subst, sym, ℕ, ◌≡◌, ◌⊎◌, refl, false, none, some, [], ◌∷◌, ◌++◌, arith, ◌==◌, length, is_empty,
  drop, any, Bool, true, ◌||◌, ◌+◌, inl, inr, Bool-cases, Option-cases,
}
use fedora_firewall_control.Storage.Paths.{
  set_value, last_is, join_path, directory_error, secure_local_path, Place, base_directory,
}
use fedora_firewall_control.Text.{Text, lit}
use fedora_firewall_control.Text.Search.{rfind_char}
use fedora_firewall_control.Storage.{safe_filename, LocalStorageArea}
use fedora_firewall_control.Storage.Replacement.Refined.{base_name}

rfind_char-none : (s : Text) (c : ℕ) → any (λ b. b == c) s ≡ false → rfind_char s c ≡ none
unfolding rfind_char
rfind_char-none [] c h = refl
rfind_char-none (b ∷ bs) c h = ground (arith, rfind_char-none bs c)

-- The last separator of a directory, a separator and a name without one.
rfind_char-append :
    (s t : Text) (c : ℕ)
    → any (λ b. b == c) t ≡ false
    → rfind_char (s ++ (c ∷ t)) c ≡ some (length s)
unfolding rfind_char
rfind_char-append [] t c h = ground (arith, rfind_char-none t c h)
rfind_char-append (b ∷ bs) t c h = ground (arith, rfind_char-append bs t c h)

drop-append : (s t : Text) → drop (length s) (s ++ t) ≡ t
drop-append [] t = refl
drop-append (b ∷ bs) t = drop-append bs t

last_is-append : (s t : Text) (c : ℕ) → is_empty t ≡ false → last_is c (s ++ t) ≡ last_is c t
last_is-append [] t c h = refl
last_is-append (b ∷ []) [] c h = cc
last_is-append (b ∷ []) (x ∷ xs) c h = refl
last_is-append (b ∷ b' ∷ bs) t c h = last_is-append (b' ∷ bs) t c h

is_empty-append_right : (s t : Text) → is_empty t ≡ false → is_empty (s ++ t) ≡ false
is_empty-append_right [] t h = h
is_empty-append_right (b ∷ bs) t h = refl

any-or : (s : Text) → any (λ c. c == b'/' || c == b'\\') s ≡ false → any (λ b. b == b'/') s ≡ false
any-or [] h = refl
any-or (b ∷ bs) h = ground (arith, any-or bs)

abbrev program_name : Text
program_name = lit "fedora-firewall-control"

program_directory :
    (base : Text)
    → (is_empty (join_path base program_name) ≡ false)
      × (last_is b'/' (join_path base program_name) ≡ false)
unfolding join_path lit
program_directory base = ground (
  arith,
  last_is-append base program_name b'/' refl,
  last_is-append base (b'/' ∷ program_name) b'/' refl,
  is_empty-append_right base program_name refl,
  is_empty-append_right base (b'/' ∷ program_name) refl,
)

join-program :
    (base filename : Text)
    → join_path (join_path base program_name) filename
      ≡ join_path base program_name ++ (b'/' ∷ filename)
unfolding join_path
join-program base filename = ground (arith, program_directory base)

safe_filename-no_slash :
    (filename : Text) → safe_filename filename ≡ true → any (λ b. b == b'/') filename ≡ false
unfolding safe_filename
safe_filename-no_slash filename h = ground (arith, any-or filename)

after_slash : (dir filename : Text) → drop (length dir + 1) (dir ++ (b'/' ∷ filename)) ≡ filename
after_slash [] filename = refl
after_slash (b ∷ bs) filename = ground (arith, after_slash bs filename)

base_name-join :
    (base filename : Text)
    → safe_filename filename ≡ true
    → base_name (join_path (join_path base program_name) filename) ≡ filename
unfolding base_name
base_name-join base filename h =
    let dir = join_path base program_name in
    ground (
      arith,
      join-program base filename,
      rfind_char-append dir filename b'/' (safe_filename-no_slash filename h),
      after_slash dir filename,
    )

base_directory-nonempty :
    (area : LocalStorageArea) (p : Place) (base : Text)
    → base_directory area p ≡ some base
    → is_empty base ≡ false
unfolding base_directory set_value join_path
base_directory-nonempty area p base h = ground arith

-- A path inside the program's directory: every part that is joined stands behind a separator.
pub record IsInside (base filename path : Text) : Type 0 where
  pub separator : Text
  pub separated : (separator ≡ lit "/") ⊎ ((separator ≡ []) × (last_is b'/' base ≡ true))
  pub inside : path ≡ base ++ (separator ++ (program_name ++ (b'/' ∷ filename)))

join-IsInside :
    (base filename : Text)
    → is_empty base ≡ false
    → IsInside base filename (join_path (join_path base program_name) filename)
unfolding join_path lit
join-IsInside base filename h = elim (Bool-cases (last_is b'/' base)) [
  | inl ends ↦ record {
    separator = [];
    separated = inr (refl, ends);
    inside =
        ground
          (arith, join-program base filename, append_assoc base program_name (b'/' ∷ filename));
  }
  | inr open_end ↦ record {
    separator = b'/' ∷ [];
    separated = inl refl;
    inside = ground (
      arith,
      join-program base filename,
      append_assoc base (b'/' ∷ program_name) (b'/' ∷ filename),
    );
  }
]

-- A path that is given is the name that was asked for, behind a separator in the program's
-- directory, which is in the base directory that the environment names. It is given only where the
-- name is safe and every check on the directory has passed; the error then stays as it was, and the
-- last part of the path is the name.
pub secure_local_path-IsInside :
    (area : LocalStorageArea) (filename : Text) (create_directory : Bool) (p : Place)
    (error path why : Text)
    → secure_local_path area filename create_directory p error ≡ some (path, why)
    → is_empty path ≡ false
    → (safe_filename filename ≡ true)
      × ((base : Text) × (base_directory area p ≡ some base) × IsInside base filename path)
      × (directory_error create_directory p ≡ some none)
      × (why ≡ error)
      × (base_name path ≡ filename)
unfolding secure_local_path
secure_local_path-IsInside area filename create_directory p error path why e h =
    elim (Bool-cases (safe_filename filename)) [
      | inr unsafe ↦ ground (arith, unsafe)
      | inl safe ↦ elim (Option-cases (base_directory area p)) [
        | inl homeless ↦ ground (arith, safe, homeless)
        | inr (base, found) ↦ elim (Option-cases (directory_error create_directory p)) [
          | inl throws ↦ ground (arith, safe, found, throws)
          | inr (some reason, refused) ↦ ground (arith, safe, found, refused)
          | inr (none, allowed) ↦
              let given : join_path (join_path base program_name) filename ≡ path =
                ground (arith, safe, found, allowed) in
              let kept : why ≡ error = ground (arith, safe, found, allowed) in
              (
                safe,
                (
                  base,
                  found,
                  subst (IsInside base filename) given
                      (join-IsInside base filename (base_directory-nonempty area p base found)),
                ),
                allowed,
                kept,
                rw (sym given) (base_name-join base filename safe),
              )
        ]
      ]
    ]
