-- ===== src/Text/Sorting.antt =====
-- The order of texts is strict and total, and sorting decides equality up to order.
use mathlib.Core.Logic.{◌↔◌, ∥∥₁_elim}
use mathlib.Core.Path.{subst}
use native.Mathlib.Nat.{ℕ_set}
use mathlib.Core.List.{Permᴰ, Perm}
use mathlib.Core.List.Perm
use fedora_firewall_control.Common.{◌≡◌, refl, true, false, List, [], ◌∷◌, arith, if◌then◌else◌}
use fedora_firewall_control.Text.{Text}
use fedora_firewall_control.Text.Laws.{text_eq_iff}
use fedora_firewall_control.Text.Order.{text_lt, insert_sorted, sort, texts_eq}

pub text_lt_irrefl : (x : Text) → text_lt x x ≡ false
unfolding text_lt
text_lt_irrefl [] = refl
text_lt_irrefl (c ∷ x) = ground (arith, text_lt_irrefl x)

pub text_lt_trans : (x y z : Text) → text_lt x y ≡ true → text_lt y z ≡ true → text_lt x z ≡ true
unfolding text_lt
text_lt_trans (a ∷ x) (b ∷ y) (c ∷ z) p q = ground (arith, text_lt_trans x y z)
text_lt_trans _ _ _ p q = ground arith

pub text_lt_total : (x y : Text) → text_lt x y ≡ false → text_lt y x ≡ false → x ≡ y
unfolding text_lt
text_lt_total (a ∷ x) (b ∷ y) p q = ground (arith, text_lt_total x y)
text_lt_total _ _ p q = ground arith

insert_sorted_comm :
    (x y : Text) (l : List Text)
    → insert_sorted x (insert_sorted y l) ≡ insert_sorted y (insert_sorted x l)
unfolding insert_sorted
insert_sorted_comm x y [] = ground (arith, text_lt_total x y, text_lt_trans x y x, text_lt_irrefl x)
insert_sorted_comm x y (z ∷ l) = ground (
  arith,
  insert_sorted_comm x y l,
  text_lt_total x y,
  text_lt_trans x y x,
  text_lt_irrefl x,
  text_lt_trans x y z,
  text_lt_trans y x z,
  text_lt_trans z x y,
  text_lt_trans z y x,
  text_lt_total z x,
  text_lt_total z y,
)

sort-Permᴰ : (s t : List Text) → Permᴰ s t → sort s ≡ sort t
unfolding sort
sort-Permᴰ _ _ Permᴰ.nil = refl
sort-Permᴰ _ _ (Permᴰ.cons {a = a} {l₁ = l} {l₂ = m} e p) = cc (e, sort-Permᴰ l m p)
sort-Permᴰ _ _ (Permᴰ.swap {a = a} {b = b} {l = l} e f) = cc (e, f, insert_sorted_comm a b (sort l))
sort-Permᴰ _ _ (Permᴰ.trans {l₁ = l} {l₂ = m} {l₃ = n} p q) =
    cc (sort-Permᴰ l m p, sort-Permᴰ m n q)

insert_sorted-Perm : (x : Text) (l : List Text) → Perm (x ∷ l) (insert_sorted x l)
unfolding insert_sorted
insert_sorted-Perm x [] = Perm.refl (x ∷ [])
insert_sorted-Perm x (y ∷ l) =
    elim (text_lt y x) as (λ b. Perm (x ∷ y ∷ l) (if b then y ∷ insert_sorted x l else x ∷ y ∷ l)) [
      | true ↦ Perm.trans (Perm.swap y x l) (Perm.cons y (insert_sorted-Perm x l))
      | false ↦ Perm.refl (x ∷ y ∷ l)
    ]

pub sort-Perm : (l : List Text) → Perm l (sort l)
unfolding sort
sort-Perm [] = Perm.refl []
sort-Perm (x ∷ l) = Perm.trans (Perm.cons x (sort-Perm l)) (insert_sorted-Perm x (sort l))

pub texts_eq_iff : (s t : List Text) → (texts_eq s t ≡ true) ↔ (s ≡ t)
unfolding texts_eq
texts_eq_iff (x ∷ s) (y ∷ t) = ground (arith, texts_eq_iff s t, text_eq_iff x y)
texts_eq_iff _ _ = ground arith

text_list_IsSet : IsSet (List Text)
text_list_IsSet = hlevel (ℕ_set)

pub sort-eq_iff : (s t : List Text) → (sort s ≡ sort t) ↔ Perm s t
sort-eq_iff s t = (
  λ e. Perm.trans (subst (Perm s) e (sort-Perm s)) (Perm.symm (sort-Perm t)),
  λ p. ∥∥₁_elim p (text_list_IsSet (sort s) (sort t)) (sort-Permᴰ s t),
)
