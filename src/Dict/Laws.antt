-- ===== src/Dict/Laws.antt =====
-- Lookups after a write.
use fedora_firewall_control.Common.{some, List, [], ◌∷◌, ◌≡◌, refl, arith, if◌then◌else◌}
use fedora_firewall_control.Text.{Text, text_eq}
use fedora_firewall_control.Text.Laws.{text_eq_iff}
use fedora_firewall_control.Dict.{lookup, assign}

module _ {ℓ} {V : Type ℓ} where
  pub lookup-assign :
      (k j : Text) (v : V) (m : List (Text × V))
      → lookup j (assign k v m) ≡ (if text_eq k j then some v else lookup j m)
  unfolding lookup assign
  lookup-assign k j v [] = refl
  lookup-assign k j v ((i, w) ∷ m) =
      ground (arith, text_eq_iff k j, text_eq_iff i k, text_eq_iff i j, lookup-assign k j v m)
