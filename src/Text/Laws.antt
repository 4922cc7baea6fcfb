-- ===== src/Text/Laws.antt =====
-- Equality of texts, and the clean-up functions of src/core/text_utils.cpp.
use mathlib.Core.Logic.{◌↔◌}
use fedora_firewall_control.Common.{ℕ, true, [], ◌∷◌, ◌≡◌, refl, arith}
use fedora_firewall_control.Text.{Text, text_eq, tolower, lowercase_copy}

pub text_eq_iff : (s t : Text) → (text_eq s t ≡ true) ↔ (s ≡ t)
unfolding text_eq
text_eq_iff (x ∷ s) (y ∷ t) = ground (arith, text_eq_iff s t)
text_eq_iff _ _ = ground arith

pub text_eq_refl : (s : Text) → text_eq s s ≡ true
text_eq_refl s = (text_eq_iff s s).1 refl

tolower_idem : (c : ℕ) → tolower (tolower c) ≡ tolower c
unfolding tolower
tolower_idem c = ground arith

pub lowercase_copy_idem : (s : Text) → lowercase_copy (lowercase_copy s) ≡ lowercase_copy s
unfolding lowercase_copy
lowercase_copy_idem [] = refl
lowercase_copy_idem (c ∷ s) = cc (tolower_idem c, lowercase_copy_idem s)
