-- ===== src/Dict.antt =====
-- `std::map<std::string, V>` as an association list in key order, the order of its iteration.
pub mod Laws
use fedora_firewall_control.Common.{
  Bool, true, false, Option, none, some, List, [], ◌∷◌, if◌then◌else◌,
}
use fedora_firewall_control.Text.{Text, text_eq}
use fedora_firewall_control.Text.Order.{text_lt}

module _ {ℓ} {V : Type ℓ} where
  -- `find`, and `at` on a key that is there
  unfoldable pub lookup : Text → List (Text × V) → Option V
  unfolding text_eq
  lookup k [] = none
  lookup k ((j, v) ∷ m) = if text_eq j k then some v else lookup k m

  -- `contains`
  unfoldable pub has_key : Text → List (Text × V) → Bool
  unfolding lookup
  has_key k m = elim (lookup k m) [ none ↦ false | some v ↦ true ]

  -- `m[k] = v`
  unfoldable pub assign : Text → V → List (Text × V) → List (Text × V)
  unfolding text_eq text_lt
  assign k v [] = (k, v) ∷ []
  assign k v ((j, w) ∷ m) =
      let rest = assign k v m in
      if text_eq j k then (k, v) ∷ m else if text_lt j k then (j, w) ∷ rest else (k, v) ∷ (j, w) ∷ m

  -- `m.emplace(k, v)`, which keeps a value that is there
  unfoldable pub emplace : Text → V → List (Text × V) → List (Text × V)
  unfolding text_eq text_lt
  emplace k v [] = (k, v) ∷ []
  emplace k v ((j, w) ∷ m) =
      let rest = emplace k v m in
      if text_eq j k then (j, w) ∷ m else if text_lt j k then (j, w) ∷ rest else (k, v) ∷ (j, w) ∷ m
