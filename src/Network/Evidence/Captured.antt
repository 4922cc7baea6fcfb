-- ===== src/Network/Evidence/Captured.antt =====
-- The history's file behind a capture of src/network/network_evidence.cpp.
use fedora_firewall_control.Network.History.{
  Write, Stored, content, failed, refuse, replace, extend, append, history_record,
  retain_recent_records, NetworkMetadata,
}
use fedora_firewall_control.Network.Evidence.{
  append_history, capture, Lookup, NetworkCapture, successful, after_write, perform, Performed,
  HistorySystem, error_of,
}
use fedora_firewall_control.Common.{
  subst, ◌≡◌, refl, inl, inr, true, some, ◌++◌, arith, Option-cases, sym, ap, ◌∙◌, Bool, false, [],
  if◌then◌else◌, Bool-cases, is_empty,
}
use fedora_firewall_control.Dict.{lookup}
use fedora_firewall_control.Dict.Laws.{lookup-assign}
use fedora_firewall_control.Storage.{Node}
use fedora_firewall_control.Storage.Replacement.{Directory, replace_private_file_atomically}
use fedora_firewall_control.Storage.Replacement.Atomic.{new_file}
use fedora_firewall_control.Storage.Replacement.Refined.{
  base_name, replace_private_file_atomically-IsAtomic,
}
use fedora_firewall_control.Storage.Writing.{opened, write_private_file}
use fedora_firewall_control.Storage.Writing.Laws.{write_private_file-filled}
use fedora_firewall_control.Text.{Text}
use fedora_firewall_control.Text.Laws.{text_eq_refl}

-- The file of the name ends with the record.
abbrev pub EndsWith : Text → Text → Directory → Type 0
EndsWith name record_text d =
    (n : Node) × (before : Text) × (lookup name d ≡ some n) × (n.text ≡ before ++ record_text)

replaced-EndsWith :
    (sys : HistorySystem) (path error old new : Text) (d : Directory) (p : Performed)
    → perform sys path error (replace (old ++ new)) d ≡ some p
    → p.saved ≡ true
    → EndsWith (base_name path) new p.directory
unfolding perform
replaced-EndsWith sys path error old new d p e k =
    elim (Option-cases (replace_private_file_atomically sys.replacing path (old ++ new) error d)) [
      | inl unanswered ↦ ground (arith, unanswered)
      | inr (r, found) ↦
          let done =
            replace_private_file_atomically-IsAtomic sys.replacing path (old ++ new) error d r
              found in
          (new_file (old ++ new), old, ground (arith, found, done.done), refl)
    ]

extended-EndsWith :
    (sys : HistorySystem) (path error new : Text) (d : Directory) (p : Performed)
    → perform sys path error (extend new) d ≡ some p
    → p.saved ≡ true
    → EndsWith (base_name path) new p.directory
unfolding perform after_write
extended-EndsWith sys path error new d p e k =
    let file = lookup (base_name path) d in
    elim (Option-cases (write_private_file sys.extending new true error file)) [
      | inl unanswered ↦ ground (arith, unanswered)
      | inr (o, found) ↦
          let wrote : o.succeeded ≡ true = ground (arith, found) in
          let filled = write_private_file-filled sys.extending new true error file o found wrote in
          (
            record (opened file) { text = (opened file).text ++ new },
            (opened file).text,
            ground (
              arith,
              found,
              filled,
              lookup-assign (base_name path) (base_name path)
                  (record (opened file) { text = (opened file).text ++ new }) d,
              text_eq_refl (base_name path),
            ),
            refl,
          )
    ]

-- A write that `append` makes is refused, or ends with the record.
data AppendsRecord (new : Text) (w : Write) : Type 0 where
  refused : (why : Text) → w ≡ refuse why → AppendsRecord new w
  replaced : (old : Text) → w ≡ replace (old ++ new) → AppendsRecord new w
  extended : w ≡ extend new → AppendsRecord new w

if-AppendsRecord :
    (b : Bool) (new : Text) (v w : Write)
    → AppendsRecord new v
    → AppendsRecord new w
    → AppendsRecord new (if b then v else w)
if-AppendsRecord true new v w h k = h
if-AppendsRecord false new v w h k = k

append-AppendsRecord :
    (found : Stored) (m : NetworkMetadata) (vpn_active : Bool)
    → AppendsRecord (history_record m vpn_active) (append found m vpn_active)
unfolding append
append-AppendsRecord (content existing) m vpn_active =
    if-AppendsRecord _ _ _ _ (replaced (retain_recent_records existing) refl) (extended refl)
append-AppendsRecord (failed error) m vpn_active =
    if-AppendsRecord _ _ _ _ (refused error refl) (replaced [] refl)

not-false-true : false ≡ true → ⊥
not-false-true e = cc

refused_lem :
    {new : Text} (sys : HistorySystem) (path error why : Text) (d : Directory) (p : Performed)
    → perform sys path error (refuse why) d ≡ some p
    → p.saved ≡ true
    → EndsWith (base_name path) new p.directory
unfolding perform
refused_lem sys path error why d p e k =
    absurd (let lie : false ≡ true = ground (arith, e, k) in not-false-true lie)

perform-EndsWith :
    (sys : HistorySystem) (path error new : Text) (w : Write) (d : Directory) (p : Performed)
    → AppendsRecord new w
    → perform sys path error w d ≡ some p
    → p.saved ≡ true
    → EndsWith (base_name path) new p.directory
perform-EndsWith sys path error new w d p (refused why r) e k =
    refused_lem sys path error why d p (ap (λ v. perform sys path error v d) (sym r) ∙ e) k
perform-EndsWith sys path error new w d p (replaced old r) e k =
    replaced-EndsWith sys path error old new d p (ap (λ v. perform sys path error v d) (sym r) ∙ e)
      k
perform-EndsWith sys path error new w d p (extended r) e k =
    extended-EndsWith sys path error new d p (ap (λ v. perform sys path error v d) (sym r) ∙ e) k

-- A capture that counts as successful has found the public address, and its record then stands at
-- the end of the history's file, whether the file was extended or replaced.
pub capture-EndsWith :
    (sys : HistorySystem) (path error : Text) (found : Stored) (l : Lookup) (vpn_active : Bool)
    (d d' : Directory) (c : NetworkCapture)
    → capture sys (path, error) found l vpn_active d ≡ some (c, d')
    → successful c ≡ true
    → (l.public_ip_lookup_succeeded ≡ true)
      × EndsWith (base_name path) (history_record l.metadata vpn_active) d'
unfolding capture append_history
capture-EndsWith sys path error found l vpn_active d d' c e k =
    elim (Bool-cases l.public_ip_lookup_succeeded) [
      | inr unseen ↦ absurd (not-false-true (ground (arith, unseen, e, k)))
      | inl seen ↦ elim (Bool-cases (is_empty path)) [
        | inl nowhere ↦ absurd (not-false-true (ground (arith, seen, nowhere, e, k)))
        | inr somewhere ↦
            elim (Option-cases
              (perform sys path (error_of found) (append found l.metadata vpn_active) d)) [
                | inl unanswered ↦
                    absurd (not-false-true (ground (arith, seen, somewhere, unanswered, e)))
                | inr (p, done) ↦
                    let wrote : p.saved ≡ true = ground (arith, seen, somewhere, done, e, k) in
                    let here : p.directory ≡ d' = ground (arith, seen, somewhere, done, e) in
                    (
                      seen,
                      subst (EndsWith (base_name path) (history_record l.metadata vpn_active)) here
                          (perform-EndsWith sys path (error_of found) _ _ d p
                            (append-AppendsRecord found l.metadata vpn_active) done wrote),
                    )
              ]
      ]
    ]
