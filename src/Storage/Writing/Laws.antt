-- ===== src/Storage/Writing/Laws.antt =====
-- What a write of src/core/secure_storage.cpp leaves in the file.
use fedora_firewall_control.Common.{
  subst, ℕ, zero, suc, ◌≡◌, refl, none, some, List, [], ◌∷◌, ◌++◌, arith, take, drop, All, sym, ap,
  ◌∙◌, inl, inr, Bool, true, false, Option, if◌then◌else◌, Option-cases, some-injective,
}
use mathlib.Core.Option.{map as option_map}
use mathlib.Core.List.{append-nil, append_assoc}
use fedora_firewall_control.Storage.Writing.{
  write_from, last_text, FileWrite, Written, after_write, taken, retried, no_progress,
  write_refused, write_all, fstat, fill, write_checked, opened, write_private_file, WriteSystem,
  WriteOutcome,
}
use fedora_firewall_control.Text.{Text}
use fedora_firewall_control.Storage.{private_regular_file, Node, status}

take-drop : (n : ℕ) (t : Text) → take n t ++ drop n t ≡ t
take-drop zero t = refl
take-drop (suc n) [] = refl
take-drop (suc n) (b ∷ bs) = cc (take-drop n bs)

-- A text that is another one with more bytes behind.
abbrev pub IsPrefix : Text → Text → Type 0
IsPrefix t whole = (rest : Text) × (t ++ rest ≡ whole)

-- The texts of the file on the way, from `done` to `whole`.
pub record IsWritten (done whole : Text) (w : Written) : Type 0 where
  pub finished : w.error ≡ none → last_text done w.prefixes ≡ whole
  pub partial : All (λ t. IsPrefix t whole) w.prefixes

after_write-IsWritten :
    (done done' whole rest : Text) (w : Written)
    → done' ++ rest ≡ whole
    → IsWritten done' whole w
    → IsWritten done whole (after_write done' w)
unfolding last_text
after_write-IsWritten done done' whole rest w e h = record {
  finished = λ k. h.finished k;
  partial = ((rest, e), h.partial);
}

-- Nothing was taken before an error.
stopped-IsWritten :
    (done whole why : Text) → IsWritten done whole (record { error = some why; prefixes = [] })
stopped-IsWritten done whole why = record { finished = λ k. ground (arith, k); partial = tt }

pub write_from-IsWritten :
    (done content : Text) (ws : List FileWrite) (w : Written)
    → write_from done content ws ≡ some w
    → IsWritten done (done ++ content) w
unfolding write_from
write_from-IsWritten done [] ws w e =
    subst (IsWritten done (done ++ [])) (some-injective e)
      (record { finished = λ k. unfold last_text in sym (append-nil done); partial = tt })
write_from-IsWritten done (b ∷ bs) [] w e = ground arith
write_from-IsWritten done (b ∷ bs) (taken n ∷ ws) w e =
    let done' = done ++ (b ∷ take n bs) in
    let whole : done' ++ drop n bs ≡ done ++ (b ∷ bs) =
      append_assoc done (b ∷ take n bs) (drop n bs) ∙ ap (λ t. done ++ (b ∷ t)) (take-drop n bs) in
    elim (Option-cases (write_from done' (drop n bs) ws)) [
      | inl unanswered ↦ ground (arith, unanswered)
      | inr (v, found) ↦
          subst (IsWritten done (done ++ (b ∷ bs)))
            (some-injective (ap (option_map (after_write done')) (sym found) ∙ e))
            (after_write-IsWritten done done' (done ++ (b ∷ bs)) (drop n bs) v whole (
              subst (λ t. IsWritten done' t v) whole
                (write_from-IsWritten done' (drop n bs) ws v found)))
    ]
write_from-IsWritten done (b ∷ bs) (retried ∷ ws) w e = write_from-IsWritten done (b ∷ bs) ws w e
write_from-IsWritten done (b ∷ bs) (no_progress ∷ ws) w e =
    subst (IsWritten done (done ++ (b ∷ bs))) (some-injective e) (stopped-IsWritten done _ _)
write_from-IsWritten done (b ∷ bs) (write_refused why ∷ ws) w e =
    subst (IsWritten done (done ++ (b ∷ bs))) (some-injective e) (stopped-IsWritten done _ why)

pub write_all-IsWritten :
    (done content : Text) (ws : List FileWrite) (w : Written)
    → write_all done content ws ≡ some w
    → IsWritten done (done ++ content) w
unfolding write_all
write_all-IsWritten done content ws w e = write_from-IsWritten done content ws w e

fill-IsFilled :
    (sys : WriteSystem) (content : Text) (at_end : Bool) (error : Text) (n : Node)
    (o : WriteOutcome)
    → fill sys content at_end error n ≡ some o
    → o.succeeded ≡ true
    → o.file ≡ some (record n { text = (if at_end then n.text else []) ++ content })
unfolding fill write_all
fill-IsFilled sys content true error n o e k =
    elim (Option-cases (write_from n.text content sys.writes)) [
      | inl unanswered ↦ ground (arith, unanswered)
      | inr (w, found) ↦
          ground (arith, found, (write_from-IsWritten n.text content sys.writes w found).finished)
    ]
fill-IsFilled sys content false error n o e k =
    elim (Option-cases (write_from [] content sys.writes)) [
      | inl unanswered ↦ ground (arith, unanswered)
      | inr (w, found) ↦
          ground (arith, found, (write_from-IsWritten [] content sys.writes w found).finished)
    ]

-- `write_private_file` says that it has succeeded only for a regular file of the user with one
-- link, which is the file that was there or a new one, and then its text is the content, behind
-- the text that was there when appending; its status is the same.
pub write_private_file-filled :
    (sys : WriteSystem) (content : Text) (at_end : Bool) (error : Text) (file : Option Node)
    (o : WriteOutcome)
    → write_private_file sys content at_end error file ≡ some o
    → o.succeeded ≡ true
    → (private_regular_file (status (opened file).status) ≡ none)
      × (o.file
          ≡ some (record (opened file) {
            text = (if at_end then (opened file).text else []) ++ content;
          }))
unfolding write_private_file write_checked fstat
write_private_file-filled sys content at_end error file o e k =
    ground (arith, fill-IsFilled sys content at_end error (opened file) o)

-- A file that is not a regular file of the user with one link is left as it was, and the write
-- fails with the reason.
pub write_private_file-untouched :
    (sys : WriteSystem) (content : Text) (at_end : Bool) (error why : Text) (n : Node)
    → sys.open_error ≡ none
    → sys.stat_error ≡ none
    → private_regular_file (status n.status) ≡ some why
    → write_private_file sys content at_end error (some n)
      ≡ some (record { succeeded = false; error = why; file = some n })
unfolding write_private_file write_checked fstat
write_private_file-untouched sys content at_end error why n a b h = ground arith
