-- ===== src/Network/History/Record.antt =====
-- The shape of a history record.
use fedora_firewall_control.Common.{
  ◌≡◌, arith, List, [], ◌∷◌, ◌++◌, refl, map, Bool, true, false, sym, if◌then◌else◌,
}
use mathlib.Core.List.{append_assoc}
use fedora_firewall_control.Text.{Text, lit}
use fedora_firewall_control.Logging.Analysis.{split_tabs}
use fedora_firewall_control.Logging.Analysis.RoundTrip.{
  IsTabless, split_tabs-append, split_tabs-last,
}
use fedora_firewall_control.Network.History.{
  NetworkMetadata, history_record, history_field, tabbed, fields_of,
}

history_field-IsTabless : (s : Text) → IsTabless (history_field s)
unfolding history_field
history_field-IsTabless [] = tt
history_field-IsTabless (c ∷ s) = (ground arith, history_field-IsTabless s)

tabbed-fields :
    (values : List Text) (rest : Text)
    → split_tabs (tabbed values ++ rest) ≡ map history_field values ++ split_tabs rest
unfolding tabbed
tabbed-fields [] rest = refl
tabbed-fields (v ∷ values) rest = cc (
  append_assoc (history_field v) (b'\t' ∷ tabbed values) rest,
  split_tabs-append (history_field v) (tabbed values ++ rest) (history_field-IsTabless v),
  tabbed-fields values rest,
)

abbrev pub status_text : Bool → Text
status_text vpn_active = if vpn_active then lit "active" else lit "inactive"

status-IsTabless : (vpn_active : Bool) → IsTabless (status_text vpn_active)
unfolding lit
status-IsTabless true = ground arith
status-IsTabless false = ground arith

-- A history record ends with a newline, and before it holds, between tabs, the twelve fields of the
-- observation with their control bytes blanked and the status of the VPN: no field can break the
-- columns.
pub split_tabs-history_record :
    (m : NetworkMetadata) (vpn_active : Bool)
    → (line : Text) × (history_record m vpn_active ≡ line ++ (b'\n' ∷ []))
      × (split_tabs line ≡ map history_field (fields_of m) ++ (status_text vpn_active ∷ []))
unfolding history_record
split_tabs-history_record m vpn_active = (
  tabbed (fields_of m) ++ status_text vpn_active,
  sym (append_assoc (tabbed (fields_of m)) (status_text vpn_active) (b'\n' ∷ [])),
  cc (
    tabbed-fields (fields_of m) (status_text vpn_active),
    split_tabs-last (status_text vpn_active) (status-IsTabless vpn_active),
  ),
)
