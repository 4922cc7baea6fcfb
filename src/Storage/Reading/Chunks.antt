-- ===== src/Storage/Reading/Chunks.antt =====
-- The read loop of src/core/secure_storage.cpp, for a file whose bytes the reads give in any chunks.
use mathlib.Core.List.{append-nil, append_assoc}
use fedora_firewall_control.Common.{
  subst, ℕ, ◌≤◌, ◌≡◌, true, false, Option, none, some, List, [], ◌∷◌, ◌++◌, length, ◌+◌, sym, inl,
  inr, arith, ltb, Bool-cases, length-append, Option-cases,
}
use fedora_firewall_control.Command.Communicate.{ReadResult, bytes, end_of_file, read_interrupted}
use fedora_firewall_control.Storage.Reading.{
  read_private_file, read_from, PrivateRead, holding, read_private_descriptor, ReadSystem,
}
use fedora_firewall_control.Text.{Text}
use fedora_firewall_control.Command.Rounds.Stream.{chunk}
use fedora_firewall_control.Storage.{private_regular_file}

-- The answers give the bytes of a text, in chunks and with interruptions, and then its end.
pub data Gives : Text → List ReadResult → Type 0 where
  gives_end : (rs : List ReadResult) → Gives [] (end_of_file ∷ rs)
  gives_again : {t : Text} {rs : List ReadResult} → Gives t rs → Gives t (read_interrupted ∷ rs)
  gives_bytes :
      {t u : Text} {rs : List ReadResult} (b : ℕ) (bs : Text)
      → Gives t rs
      → u ≡ (b ∷ bs) ++ t
      → Gives u (bytes b bs ∷ rs)

-- Success and error of the function of the file, for a text of which some has been read. A success
-- leaves the caller's error, which is the second text, as it was.
abbrev pub Agrees : ℕ → Text → Text → Option PrivateRead → Type 0
Agrees limit error whole none = ⊥
Agrees limit error whole (some r) =
    (r.succeeded ≡ (read_private_file limit (holding whole)).succeeded)
    × (r.succeeded ≡ false → r.error ≡ (read_private_file limit (holding whole)).error)
    × (r.succeeded ≡ true → (r.text ≡ whole) × (r.error ≡ error))

-- The text so far is within the limit, and the next chunk is not.
too_long :
    (limit : ℕ) (content chunk t : Text)
    → ltb limit (length content + length chunk) ≡ true
    → ltb limit (length (content ++ (chunk ++ t))) ≡ true
too_long limit content chunk t h =
    ground (arith, length-append content (chunk ++ t), length-append chunk t)

read_from-Agrees :
    (limit : ℕ) (content error t : Text) (rs : List ReadResult)
    → length content ≤ limit
    → Gives t rs
    → Agrees limit error (content ++ t) (read_from limit content error rs)
unfolding read_from read_private_file
read_from-Agrees limit content error t rs h (gives_end rs') = rw (append-nil content) (ground arith)
read_from-Agrees limit content error t rs h (gives_again g) =
    read_from-Agrees limit content error t _ h g
read_from-Agrees limit content error u rs h (gives_bytes {t} {rs = rs'} b bs g e) =
    elim (Bool-cases (ltb limit (length content + length (b ∷ bs)))) [
      | inl over ↦
          subst
            (λ v.
              Agrees limit error (content ++ v) (read_from limit content error (bytes b bs ∷ rs')))
            (sym e) (rw (over, read_from) (ground (arith, too_long limit content (b ∷ bs) t over)))
      | inr within ↦
          subst
            (λ v.
              Agrees limit error (content ++ v) (read_from limit content error (bytes b bs ∷ rs')))
            (sym e)
            (rw (within, read_from)
              (subst (λ v. Agrees limit error v (read_from limit (content ++ (b ∷ bs)) error rs'))
                (append_assoc content (b ∷ bs) t)
                (read_from-Agrees limit (content ++ (b ∷ bs)) error t rs'
                  (ground (arith, length-append content (b ∷ bs))) g)))
    ]

-- Reading a private file in chunks, where its descriptor is opened, private and closed without an
-- error, returns and agrees with the function of the file: it succeeds just if the text is within
-- the limit, and then gives the whole text and leaves the caller's error as it was; else it gives
-- the same error.
pub read_private_descriptor-Agrees :
    (sys : ReadSystem) (limit : ℕ) (content error t : Text)
    → sys.open_error ≡ none
    → private_regular_file sys.opened ≡ none
    → sys.close_error ≡ none
    → Gives t sys.reads
    → Agrees limit error t (read_private_descriptor sys limit content error)
unfolding read_private_descriptor
read_private_descriptor-Agrees sys limit content error t a b c g =
    elim (Option-cases (read_from limit [] error sys.reads)) [
      | inl unanswered ↦ absurd (
          subst (Agrees limit error t) unanswered
            (read_from-Agrees limit [] error t sys.reads (omega arith) g))
      | inr (r, found) ↦
          subst (Agrees limit error t) {x = some r} (ground (arith, a, b, c, found)) (
            subst (Agrees limit error t) found
              (read_from-Agrees limit [] error t sys.reads (omega arith) g))
    ]
