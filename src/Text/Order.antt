-- ===== src/Text/Order.antt =====
-- The order of std::string, `std::sort` over texts, and `std::set<std::string>` as a sorted list
-- without repetition.
use fedora_firewall_control.Common.{
  Bool, true, false, ◌&&◌, ◌||◌, List, [], ◌∷◌, ltb, ◌==◌, if◌then◌else◌,
}
use fedora_firewall_control.Text.{Text, text_eq}

-- `left < right`: bytes compare as unsigned numbers.
unfoldable pub text_lt : Text → Text → Bool
text_lt [] [] = false
text_lt [] (y ∷ ys) = true
text_lt (x ∷ xs) [] = false
text_lt (x ∷ xs) (y ∷ ys) = ltb x y || (x == y && text_lt xs ys)

unfoldable pub insert_sorted : Text → List Text → List Text
unfolding text_lt
insert_sorted x [] = x ∷ []
insert_sorted x (y ∷ ys) =
    let rest = insert_sorted x ys in if text_lt y x then y ∷ rest else x ∷ y ∷ ys

unfoldable pub sort : List Text → List Text
unfolding insert_sorted
sort [] = []
sort (x ∷ xs) = insert_sorted x (sort xs)

-- `left == right` on vectors of strings
unfoldable pub texts_eq : List Text → List Text → Bool
unfolding text_eq
texts_eq [] [] = true
texts_eq (x ∷ xs) (y ∷ ys) = text_eq x y && texts_eq xs ys
texts_eq _ _ = false

-- `std::find(v.begin(), v.end(), x) != v.end()`
unfoldable pub member : Text → List Text → Bool
unfolding text_eq
member x [] = false
member x (y ∷ ys) = text_eq y x || member x ys

-- `std::set::insert`
unfoldable pub set_insert : Text → List Text → List Text
unfolding text_eq text_lt
set_insert x [] = x ∷ []
set_insert x (y ∷ ys) =
    let rest = set_insert x ys in
    if text_eq y x then y ∷ ys else if text_lt y x then y ∷ rest else x ∷ y ∷ ys
