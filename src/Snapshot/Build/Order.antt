-- ===== src/Snapshot/Build/Order.antt =====
-- The order of the recommendations.
use mathlib.Core.List.{Perm}
use mathlib.Core.List.Perm
use fedora_firewall_control.Common.{
  ◌≡◌, true, false, List, [], ◌∷◌, ◌++◌, map, arith, ltb, if◌then◌else◌, ◌≤◌, filter, ◌==◌, ℕ, refl,
}
use fedora_firewall_control.Firewall.{FirewallState}
use fedora_firewall_control.Snapshot.{DashboardRecommendation}
use fedora_firewall_control.Snapshot.Findings.{blockers, review_items, coverage_gaps}
use fedora_firewall_control.Snapshot.Build.{
  recommendation_priority, recommend, insert_stable, stable_sort, recommendations,
}

insert_stable-Perm :
    (x : DashboardRecommendation) (l : List DashboardRecommendation)
    → Perm (x ∷ l) (insert_stable x l)
unfolding insert_stable
insert_stable-Perm x [] = Perm.refl (x ∷ [])
insert_stable-Perm x (y ∷ l) =
    elim (ltb (recommendation_priority x) (recommendation_priority y))
      as (λ b. Perm (x ∷ y ∷ l) (if b then y ∷ insert_stable x l else x ∷ y ∷ l)) [
        | true ↦ Perm.trans (Perm.swap y x l) (Perm.cons y (insert_stable-Perm x l))
        | false ↦ Perm.refl (x ∷ y ∷ l)
      ]

stable_sort-Perm : (l : List DashboardRecommendation) → Perm l (stable_sort l)
unfolding stable_sort
stable_sort-Perm [] = Perm.refl []
stable_sort-Perm (x ∷ l) =
    Perm.trans (Perm.cons x (stable_sort-Perm l)) (insert_stable-Perm x (stable_sort l))

-- No element ranks above `bound`, and each ranks no higher than the one before it.
abbrev pub IsFalling : ℕ → List DashboardRecommendation → Type 0
IsFalling bound [] = Unit
IsFalling bound (x ∷ l) =
    (recommendation_priority x ≤ bound) × IsFalling (recommendation_priority x) l

insert_stable-IsFalling :
    (bound : ℕ) (x : DashboardRecommendation) (l : List DashboardRecommendation)
    → recommendation_priority x ≤ bound
    → IsFalling bound l
    → IsFalling bound (insert_stable x l)
unfolding insert_stable
insert_stable-IsFalling bound x [] h k = (h, tt)
insert_stable-IsFalling bound x (y ∷ l) h (k, ks) =
    ground (arith, insert_stable-IsFalling (recommendation_priority y) x l)

priority-le : (x : DashboardRecommendation) → recommendation_priority x ≤ 800
unfolding recommendation_priority
priority-le x = ground arith

stable_sort-IsFalling : (l : List DashboardRecommendation) → IsFalling 800 (stable_sort l)
unfolding stable_sort
stable_sort-IsFalling [] = tt
stable_sort-IsFalling (x ∷ l) =
    insert_stable-IsFalling 800 x (stable_sort l) (priority-le x) (stable_sort-IsFalling l)

abbrev pub of_priority : ℕ → List DashboardRecommendation → List DashboardRecommendation
of_priority n l = filter (λ r. recommendation_priority r == n) l

insert_stable-of_priority :
    (n : ℕ) (x : DashboardRecommendation) (l : List DashboardRecommendation)
    → of_priority n (insert_stable x l) ≡ of_priority n (x ∷ l)
unfolding insert_stable
insert_stable-of_priority n x [] = refl
insert_stable-of_priority n x (y ∷ l) = ground (arith, insert_stable-of_priority n x l)

stable_sort-of_priority :
    (n : ℕ) (l : List DashboardRecommendation) → of_priority n (stable_sort l) ≡ of_priority n l
unfolding stable_sort
stable_sort-of_priority n [] = refl
stable_sort-of_priority n (x ∷ l) =
    ground (arith, stable_sort-of_priority n l, insert_stable-of_priority n x (stable_sort l))

abbrev pub unsorted : FirewallState → List DashboardRecommendation
unsorted s = map recommend (blockers s ++ review_items s ++ coverage_gaps s)

-- The recommendations of a snapshot are its blockers, review items and coverage gaps, none lost and
-- none repeated; their priorities never rise along the list; and those of one priority keep the
-- order in which they were found.
pub recommendations_lem :
    (s : FirewallState) (n : ℕ)
    → Perm (unsorted s) (recommendations s)
      × IsFalling 800 (recommendations s)
      × (of_priority n (recommendations s) ≡ of_priority n (unsorted s))
unfolding recommendations
recommendations_lem s n = (
  stable_sort-Perm (unsorted s),
  stable_sort-IsFalling (unsorted s),
  stable_sort-of_priority n (unsorted s),
)
