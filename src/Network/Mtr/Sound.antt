-- ===== src/Network/Mtr/Sound.antt =====
-- What the hops of `parse_mtr_hops` of src/network/network_path_parser.cpp are.
use fedora_firewall_control.Common.{
  ℕ, ◌≤◌, ◌≡◌, ◌≢◌, ◌⊎◌, true, false, some, arith, refl, inl, inr, Option, none, List, [], ◌∷◌,
  Option-cases, All, Bool-cases,
}
use fedora_firewall_control.Network.Address.{
  classify_network_address, AddressParser, unknown, NetworkAddressScope,
}
use fedora_firewall_control.Network.Mtr.{
  ordinal_number, loss_percent, mtr_hop, Floats, PathStabilityHop, mtr_hop_of, mtr_hops_of,
  parse_mtr_hops, is_unknown, add_hop,
}
use fedora_firewall_control.Text.{Text, lit, text_eq}
use fedora_firewall_control.Text.Laws.{text_eq_iff}
use fedora_firewall_control.Text.Words.{lines, split_words}

module _ {D : Type 0} (f : Floats D) (net : AddressParser) where
  -- A number of its own, a finite loss between 0 and 100, and an address that has a scope or is
  -- the mark of a silent hop, which has lost everything.
  pub record IsHop (hop : PathStabilityHop D) : Type 0 where
    pub numbered : 1 ≤ hop.number
    pub percent : D
    pub measured : hop.response_loss_percent ≡ some percent
    pub finite : f.is_finite percent ≡ true
    pub from_zero : f.is_below_zero percent ≡ false
    pub to_hundred : f.is_above_hundred percent ≡ false
    pub scoped : hop.scope ≡ classify_network_address net hop.address
    pub known : (hop.scope ≢ unknown) ⊎ ((hop.address ≡ lit "???") × (f.is_hundred percent ≡ true))

  ordinal_number-pos :
      (ordinal : Text) (number : ℕ) → ordinal_number ordinal ≡ some number → 1 ≤ number
  unfolding ordinal_number
  ordinal_number-pos ordinal number e = ground arith

  loss_percent-range :
      (loss : Text) (value : D)
      → loss_percent f loss ≡ some value
      → (f.is_finite value ≡ true)
        × (f.is_below_zero value ≡ false)
        × (f.is_above_hundred value ≡ false)
  unfolding loss_percent
  loss_percent-range loss value e = (ground arith, ground arith, ground arith)

  is_unknown-false : (scope : NetworkAddressScope) → is_unknown scope ≡ false → scope ≢ unknown
  is_unknown-false scope h k = ground (arith, k)

  known_lem :
      (number : ℕ) (address : Text) (value : D) (hop : PathStabilityHop D)
      → mtr_hop f net number address value ≡ some hop
      → (text_eq address (lit "???") ≡ true) ⊎ (text_eq address (lit "???") ≡ false)
      → (hop.scope ≢ unknown) ⊎ ((hop.address ≡ lit "???") × (f.is_hundred value ≡ true))
  unfolding mtr_hop
  known_lem number address value hop e (inl same) =
      inr (ground (arith, same, (text_eq_iff address (lit "???")).0 same), ground (arith, same))
  known_lem number address value hop e (inr other) = inl (λ k.
      is_unknown-false (classify_network_address net address) (ground (arith, other))
        (ground (arith, other, k)))

  mtr_hop-IsHop :
      (number : ℕ) (address : Text) (value : D) (hop : PathStabilityHop D)
      → 1 ≤ number
      → (f.is_finite value ≡ true)
        × (f.is_below_zero value ≡ false)
        × (f.is_above_hundred value ≡ false)
      → mtr_hop f net number address value ≡ some hop
      → IsHop hop
  unfolding mtr_hop
  mtr_hop-IsHop number address value hop n r e = record {
    numbered = ground arith;
    percent = value;
    measured = ground arith;
    finite = r.0;
    from_zero = r.1;
    to_hundred = r.2;
    scoped = ground arith;
    known = known_lem number address value hop e (Bool-cases (text_eq address (lit "???")));
  }

  mtr_hop_of-IsHop :
      (words : List Text) (hop : PathStabilityHop D) → mtr_hop_of f net words ≡ some hop → IsHop hop
  unfolding mtr_hop_of
  mtr_hop_of-IsHop [] hop e = ground arith
  mtr_hop_of-IsHop (a ∷ []) hop e = ground arith
  mtr_hop_of-IsHop (a ∷ b ∷ []) hop e = ground arith
  mtr_hop_of-IsHop (ordinal ∷ address ∷ loss ∷ more) hop e =
      elim (Option-cases (ordinal_number ordinal)) [
        | inl unnumbered ↦ ground (arith, unnumbered)
        | inr (number, found) ↦ elim (Option-cases (loss_percent f loss)) [
          | inl unmeasured ↦ ground (arith, found, unmeasured)
          | inr (value, measured) ↦
              mtr_hop-IsHop number address value hop (ordinal_number-pos ordinal number found)
                (loss_percent-range loss value measured) (ground (arith, found, measured))
        ]
      ]

  add_hop-All :
      (o : Option (PathStabilityHop D)) (rest : List (PathStabilityHop D))
      → ((hop : PathStabilityHop D) → o ≡ some hop → IsHop hop)
      → All IsHop rest
      → All IsHop (add_hop o rest)
  unfolding add_hop
  add_hop-All none rest h k = k
  add_hop-All (some hop) rest h k = (h hop refl, k)

  mtr_hops_of-All : (rows : List Text) → All IsHop (mtr_hops_of f net rows)
  unfolding mtr_hops_of
  mtr_hops_of-All [] = tt
  mtr_hops_of-All (row ∷ rows) =
      add_hop-All (mtr_hop_of f net (split_words row)) _ (mtr_hop_of-IsHop (split_words row))
        (mtr_hops_of-All rows)

  -- Every hop that is read from an mtr report has a number of at least 1, a finite loss between 0
  -- and 100 percent, the scope of its address, and an address that is known or the mark `???` of a
  -- hop that lost everything.
  pub parse_mtr_hops-All : (mtr_output : Text) → All IsHop (parse_mtr_hops f net mtr_output)
  unfolding parse_mtr_hops
  parse_mtr_hops-All mtr_output = mtr_hops_of-All (lines mtr_output)
