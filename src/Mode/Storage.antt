-- ===== src/Mode/Storage.antt =====
-- The stored assessment mode of src/security/operating_mode.cpp.
use fedora_firewall_control.Common.{◌≡◌, refl, [], ◌∷◌, ◌++◌, arith, ◌⊎◌, inl, inr}
use fedora_firewall_control.Text.{Text, lit, text_eq}
use fedora_firewall_control.Text.Laws.{text_eq_iff}
use fedora_firewall_control.Text.Search.{find_char}
use fedora_firewall_control.Mode.{
  OperatingMode, normal, hostile_network, StoredMode, content, absent, load, saved_value, available,
  first_line, parse_operating_mode, loaded, no_path, not_inspected, not_readable,
}

-- A value that `save` wrote is loaded as the mode that was saved, with nothing to report; what
-- follows its first line plays no part.
pub load-saved_value :
    (m : OperatingMode) (rest : Text)
    → load (content (saved_value m ++ (b'\n' ∷ rest)))
      ≡ record { mode = m; status = available; diagnostic = [] }
unfolding load saved_value first_line find_char parse_operating_mode text_eq loaded lit
load-saved_value normal rest = refl
load-saved_value hostile_network rest = refl

-- The normal mode is loaded only where nothing is stored or where the first line of what is stored
-- is `normal`; every failure and every other value gives the hostile mode.
pub load-normal :
    (stored : StoredMode)
    → (load stored).mode ≡ normal
    → (stored ≡ absent)
      ⊎ ((value : Text) × (stored ≡ content value) × (first_line value ≡ lit "normal"))
unfolding load loaded parse_operating_mode
load-normal (content value) h =
    inr (value, refl, ground (arith, text_eq_iff (first_line value) (lit "normal")))
load-normal absent h = inl refl
load-normal (no_path e) h = ground arith
load-normal (not_inspected e) h = ground arith
load-normal (not_readable e) h = ground arith
