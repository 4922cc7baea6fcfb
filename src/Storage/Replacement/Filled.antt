-- ===== src/Storage/Replacement/Filled.antt =====
-- The temporary file of a replacement of src/core/secure_storage.cpp: its name, and its writes.
use fedora_firewall_control.Common.{
  subst, some-injective, ℕ, zero, suc, ◌+◌, ◌<◌, ◌≡◌, refl, ap, inl, inr, false, none, some, List,
  [], ◌∷◌, ◌++◌, map, arith, Bool-cases, length, length-append, Option, Option-cases,
}
use fedora_firewall_control.Text.Decimal.{to_string}
use fedora_firewall_control.Dict.{lookup, has_key}
use fedora_firewall_control.Dict.Laws.{lookup-assign}
use fedora_firewall_control.Storage.Replacement.{
  Directory, unchanged, temporary_name, allocate, fill_temporary, ReplaceSystem, Replaced,
  with_text, allocated, give_up, publish, finish, closing_error, first_of,
}
use fedora_firewall_control.Storage.Replacement.Atomic.{
  Stays, new_file, IsAtomic, IsOnTheWay, give_up-IsAtomic, publish-IsAtomic,
}
use fedora_firewall_control.Text.{Text, lit, text_eq}
use fedora_firewall_control.Text.Laws.{text_eq_iff}
use fedora_firewall_control.Storage.Writing.{last_text, Written, write_all, fstat, kept_error}
use fedora_firewall_control.Storage.Writing.Laws.{IsWritten, write_all-IsWritten}
use fedora_firewall_control.Storage.{private_regular_file, created}

pub unchanged-IsAtomic :
    (sys : ReplaceSystem) (filename content : Text) (d : Directory) (why : Text)
    → IsAtomic sys filename content d (unchanged why)
unchanged-IsAtomic sys filename content d why = record {
  before = [];
  after = [];
  split = refl;
  old = tt;
  new = tt;
  done = λ k. ground (arith, k);
  failed = λ _ _. refl;
  others = λ _ _ _. refl;
}

-- The temporary name is longer than the name.
length-temporary_name :
    (filename : Text) (process attempt : ℕ)
    → length filename < length (temporary_name filename process attempt)
unfolding temporary_name lit
length-temporary_name filename process attempt = omega (
  arith,
  length-append {0} filename (lit ".tmp." ++ (to_string process ++ (lit "." ++ to_string attempt))),
)

temporary_name-apart :
    (filename : Text) (process attempt : ℕ)
    → text_eq (temporary_name filename process attempt) filename ≡ false
temporary_name-apart filename process attempt =
    elim (Bool-cases (text_eq (temporary_name filename process attempt) filename)) [
      | inl same ↦ absurd (
          omega (
            arith,
            ap length ((text_eq_iff _ filename).0 same),
            length-temporary_name filename process attempt,
          ))
      | inr other ↦ other
    ]

pub record IsFresh (filename name : Text) (d : Directory) : Type 0 where
  pub free : lookup name d ≡ none
  pub apart : text_eq name filename ≡ false

pub allocate-IsFresh :
    (sys : ReplaceSystem) (filename name : Text) (d : Directory) (left attempt : ℕ)
    → allocate sys filename d left attempt ≡ allocated name
    → IsFresh filename name d
unfolding allocate has_key
allocate-IsFresh sys filename name d zero attempt e = ground arith
allocate-IsFresh sys filename name d (suc left) attempt e = ground (
  arith,
  allocate-IsFresh sys filename name d left (attempt + 1),
  temporary_name-apart filename sys.process attempt,
)

first_of-none : (a b : Option Text) → first_of a b ≡ none → a ≡ none
unfolding first_of
first_of-none none b e = refl
first_of-none (some why) b e = ground arith

module _ (sys : ReplaceSystem) (filename name content : Text) (d : Directory)
    (fresh : IsFresh filename name d) where
  with_text-IsOnTheWay :
      (t : Text) → IsOnTheWay filename name (lookup filename d) d (with_text name d t)
  unfolding with_text
  with_text-IsOnTheWay t = record {
    shows = ground (arith, lookup-assign name filename (new_file t) d, fresh.apart);
    keeps = λ k p _. ground (arith, lookup-assign name k (new_file t) d, p);
  }

  with_texts-Stays :
      (ts : List Text) → Stays filename (lookup filename d) (map (with_text name d) ts)
  with_texts-Stays [] = tt
  with_texts-Stays (t ∷ ts) = ((with_text-IsOnTheWay t).shows, with_texts-Stays ts)

  start-IsAtomic :
      (why : Text)
      → IsAtomic sys filename content d
          (give_up sys name why (with_text name d [] ∷ []) (with_text name d []))
  start-IsAtomic why =
      give_up-IsAtomic sys filename name content d fresh.free fresh.apart why _ _
        ((with_text-IsOnTheWay []).shows, tt) (with_text-IsOnTheWay [])

  filled-IsAtomic :
      (why : Text) (w : Written)
      → IsAtomic sys filename content d (
          give_up sys name why
            (with_text name d [] ∷ map (with_text name d) w.prefixes)
            (with_text name d (last_text [] w.prefixes)))
  filled-IsAtomic why w =
      give_up-IsAtomic sys filename name content d fresh.free fresh.apart why _ _
        ((with_text-IsOnTheWay []).shows, with_texts-Stays w.prefixes)
        (with_text-IsOnTheWay (last_text [] w.prefixes))

  published-IsAtomic :
      (error : Text) (w : Written)
      → last_text [] w.prefixes ≡ content
      → IsAtomic sys filename content d (
          publish sys filename name
            (last_text [] w.prefixes)
            error
            (with_text name d [] ∷ map (with_text name d) w.prefixes)
            (with_text name d (last_text [] w.prefixes)))
  published-IsAtomic error w e = rw e (
      publish-IsAtomic sys filename name content d fresh.free fresh.apart error _
        (with_text name d content) ((with_text-IsOnTheWay []).shows, with_texts-Stays w.prefixes)
        (with_text-IsOnTheWay content))

  finish-IsAtomic :
      (error : Text) (w : Written)
      → IsWritten [] content w
      → IsAtomic sys filename content d (finish sys filename name error d w)
  unfolding finish
  finish-IsAtomic error w h = elim (Option-cases (first_of w.error sys.fsync_error)) [
    | inr (why, unwritten) ↦
        subst Goal (ground (arith, unwritten))
          (filled-IsAtomic (closing_error sys.close_error why) w)
    | inl written ↦ elim (Option-cases sys.close_error) [
      | inr (why, unclosed) ↦ subst Goal (ground (arith, written, unclosed)) (filled-IsAtomic why w)
      | inl closed ↦
          subst Goal (ground (arith, written, closed)) (
            published-IsAtomic error w (h.finished (first_of-none w.error sys.fsync_error written)))
    ]
  ]
    where
      Goal : Replaced → Type 0
      Goal r = IsAtomic sys filename content d r

  pub fill_temporary-IsAtomic :
      (error : Text) (r : Replaced)
      → fill_temporary sys filename name content error d ≡ some r
      → IsAtomic sys filename content d r
  unfolding fill_temporary
  fill_temporary-IsAtomic error r e =
      elim (Option-cases (private_regular_file (fstat sys.stat_error created))) [
        | inr (why, unsafe) ↦
            subst Goal (some-injective (ground (arith, unsafe)))
              (start-IsAtomic (closing_error sys.close_error why))
        | inl safe ↦ elim (Option-cases sys.fchmod_error) [
          | inr (why, denied) ↦
              subst Goal (some-injective (ground (arith, safe, denied)))
                (start-IsAtomic (closing_error sys.close_error (kept_error error why)))
          | inl allowed ↦ elim (Option-cases (write_all [] content sys.writes)) [
            | inl unanswered ↦ ground (arith, safe, allowed, unanswered)
            | inr (w, found) ↦
                subst Goal (some-injective (ground (arith, safe, allowed, found)))
                  (finish-IsAtomic error w (write_all-IsWritten [] content sys.writes w found))
          ]
        ]
      ]
    where
      Goal : Replaced → Type 0
      Goal r = IsAtomic sys filename content d r
