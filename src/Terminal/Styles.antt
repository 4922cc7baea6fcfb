-- ===== src/Terminal/Styles.antt =====
-- The pure methods of `TerminalUi` of src/ui/terminal_ui.cpp, and what its constructor reads.
use fedora_firewall_control.Terminal.{sanitize_terminal_text, is_parameter}
use fedora_firewall_control.Terminal.Displayable.{
  IsDisplayable, rendition, IsDisplayable-append, end,
}
use fedora_firewall_control.Terminal.Shown.{sanitize_terminal_text-IsDisplayable}
use fedora_firewall_control.Common.{
  ℕ, ◌<◌, ◌≡◌, refl, inl, inr, Bool, true, false, not, ◌&&◌, Option, none, some, [], ◌∷◌, ◌++◌, ltb,
  leb, if◌then◌else◌, Bool-cases, all, All,
}
use fedora_firewall_control.Text.{Text, lit, text_eq}

pub data Theme : Type 0 where
  industrial defcon high_contrast : Theme

pub record TerminalUi : Type 0 where
  pub color : Bool
  pub clear_screen : Bool
  pub width : ℕ
  pub theme : Theme

unfoldable pub theme_of : Option Text → Theme
unfolding text_eq
theme_of none = industrial
theme_of (some name) =
    if text_eq name (lit "defcon")
    then defcon
    else if text_eq name (lit "high-contrast")
    then high_contrast
    else industrial

-- `COLUMNS` as the `int` that was read, if the whole text was one.
unfoldable pub width_of : Option ℕ → ℕ
width_of none = 72
width_of (some requested) =
    if leb 50 requested then (if ltb requested 100 then requested else 100) else 72

-- `value == "1"`
abbrev is_one : Option Text → Bool
is_one none = false
is_one (some value) = text_eq value (lit "1")

-- `isatty`, whether NO_COLOR is set, and the three other variables.
unfoldable pub new_terminal : Bool → Bool → Option Text → Option Text → Option ℕ → TerminalUi
unfolding theme_of width_of text_eq
new_terminal is_terminal no_color clear_variable theme_variable columns =
    let color = is_terminal && not no_color in
    record {
      color = color;
      clear_screen = color && is_one clear_variable;
      width = width_of columns;
      theme = theme_of theme_variable;
    }

-- The default of the second parameter of `sanitize_terminal_text`.
abbrev pub maximum_text_bytes : ℕ
maximum_text_bytes = 4096

unfoldable pub paint : TerminalUi → Text → Text → Text
unfolding sanitize_terminal_text
paint ui code text =
    let safe_text = sanitize_terminal_text text maximum_text_bytes in
    if ui.color
    then 0x1b ∷ b'[' ∷ (code ++ (b'm' ∷ (safe_text ++ (0x1b ∷ b'[' ∷ b'0' ∷ b'm' ∷ []))))
    else safe_text

unfoldable pub accent_code : Theme → Text
accent_code industrial = lit "1;97"
accent_code defcon = lit "1;36"
accent_code high_contrast = lit "1;97;44"

unfoldable pub rule_code : Theme → Text
rule_code industrial = lit "2;31"
rule_code defcon = lit "2;36"
rule_code high_contrast = lit "1;97"

unfoldable pub danger_code : Theme → Text
danger_code industrial = lit "1;97;41"
danger_code _ = lit "1;31"

-- The styles of the public methods, with their codes.
pub data Style : Type 0 where
  accent success warning danger muted rule_style : Style

unfoldable pub style_code : Style → Theme → Text
unfolding accent_code rule_code danger_code
style_code accent theme = accent_code theme
style_code success theme = lit "1;32"
style_code warning theme = lit "1;33"
style_code danger theme = danger_code theme
style_code muted theme = lit "2;37"
style_code rule_style theme = rule_code theme

unfoldable pub styled : TerminalUi → Style → Text → Text
unfolding paint style_code
styled ui s text = paint ui (style_code s ui.theme) text

unfoldable pub badge : TerminalUi → Style → Text → Text
unfolding paint style_code
badge ui s text = paint ui (style_code s ui.theme) (lit "[ " ++ (text ++ lit " ]"))

unfoldable pub theme_name : Theme → Text
theme_name industrial = lit "industrial"
theme_name defcon = lit "defcon"
theme_name high_contrast = lit "high-contrast"

style_code-numeric : (s : Style) (theme : Theme) → all is_parameter (style_code s theme) ≡ true
unfolding style_code lit
style_code-numeric accent industrial = refl
style_code-numeric accent defcon = refl
style_code-numeric accent high_contrast = refl
style_code-numeric success theme = refl
style_code-numeric warning theme = refl
style_code-numeric danger industrial = refl
style_code-numeric danger defcon = refl
style_code-numeric danger high_contrast = refl
style_code-numeric muted theme = refl
style_code-numeric rule_style industrial = refl
style_code-numeric rule_style defcon = refl
style_code-numeric rule_style high_contrast = refl

-- Whatever bytes a text has, what is shown of it in any style holds no control byte and no DEL,
-- but for the escape bytes of whole SGR sequences.
pub styled-IsDisplayable :
    (ui : TerminalUi) (s : Style) (text : Text)
    → All (λ c. c < 256) text
    → IsDisplayable (styled ui s text)
unfolding styled
styled-IsDisplayable ui s text k =
    let safe = sanitize_terminal_text-IsDisplayable text maximum_text_bytes k in
    elim (Bool-cases ui.color) [
      | inr grey ↦ rw grey safe
      | inl color ↦ rw color (
          rendition (style_code s ui.theme) (style_code-numeric s ui.theme)
            (IsDisplayable-append safe (rendition (b'0' ∷ []) refl end refl)) refl)
    ]
