-- ===== src/Terminal/Displayable.antt =====
-- What `sanitize_terminal_text` of src/ui/terminal_ui.cpp lets through.
use fedora_firewall_control.Common.{
  ℕ, zero, suc, ◌/◌, ◌%◌, ◌≤◌, ◌<◌, ◌≡◌, ◌≢◌, true, some, [], ◌∷◌, ◌++◌, arith, take, all, ◌+◌, ◌*◌,
  inl, inr, ◌==◌, Bool-cases, Option-cases, length, drop, All, subst, some-injective, refl, none,
  ltb, if◌then◌else◌, ◌||◌,
}
use mathlib.Core.List.{append_assoc}
use fedora_firewall_control.Terminal.{
  hex_digit, hex_escape, unicode_escape, is_parameter, continue_codepoint,
  terminal_format_codepoint, escaped, is_scalar, multibyte, plain_piece, Piece, behind, sgr_from,
  sgr, piece,
}
use fedora_firewall_control.Text.{Text}

-- Bytes that are no control characters, and SGR sequences: an escape byte stands only in front of
-- a bracket, digits and semicolons, and an `m`.
pub data IsDisplayable : Text → Type 0 where
  end : IsDisplayable []
  byte : {t : Text} (c : ℕ) → 32 ≤ c → c ≢ 127 → IsDisplayable t → IsDisplayable (c ∷ t)
  rendition :
      {t u : Text} (parameters : Text)
      → all is_parameter parameters ≡ true
      → IsDisplayable t
      → u ≡ 0x1b ∷ b'[' ∷ (parameters ++ (b'm' ∷ t))
      → IsDisplayable u

pub IsDisplayable-append : {s t : Text} → IsDisplayable s → IsDisplayable t → IsDisplayable (s ++ t)
IsDisplayable-append end k = k
IsDisplayable-append (byte c l n h) k = byte c l n (IsDisplayable-append h k)
IsDisplayable-append (rendition {t = s'} parameters p h e) k =
    rendition parameters p (IsDisplayable-append h k)
      (rw e (cc (append_assoc parameters (b'm' ∷ s') _)))

hex_digit-range : (n : ℕ) → n < 16 → (32 ≤ hex_digit n) × (hex_digit n ≢ 127)
unfolding hex_digit
hex_digit-range n h = (ground arith, λ k. ground (arith, k))

shown : (c : ℕ) {t : Text} → (32 ≤ c) × (c ≢ 127) → IsDisplayable t → IsDisplayable (c ∷ t)
shown c (l, n) h = byte c l n h

hex_escape-IsDisplayable : (c : ℕ) → c < 256 → IsDisplayable (hex_escape c)
unfolding hex_escape
hex_escape-IsDisplayable c h =
    shown b'\\' (omega arith, λ k. ground (arith, k))
      (shown b'x' (omega arith, λ k. ground (arith, k))
        (shown _ (hex_digit-range (c / 16) (omega arith))
          (shown _ (hex_digit-range (c % 16) (omega arith)) end)))

unicode_escape-IsDisplayable : (c : ℕ) → IsDisplayable (unicode_escape c)
unfolding unicode_escape
unicode_escape-IsDisplayable c =
    shown b'\\' (omega arith, λ k. ground (arith, k))
      (shown b'u' (omega arith, λ k. ground (arith, k))
        (shown _ (hex_digit-range (c / 4096 % 16) (omega arith)) (
          shown _ (hex_digit-range (c / 256 % 16) (omega arith)) (
            shown _ (hex_digit-range (c / 16 % 16) (omega arith))
              (shown _ (hex_digit-range (c % 16) (omega arith)) end)))))

-- The continuation bytes are above 127.
continue_codepoint-IsDisplayable :
    (n codepoint whole : ℕ) (cs : Text)
    → continue_codepoint n codepoint cs ≡ some whole
    → IsDisplayable (take n cs)
unfolding continue_codepoint
continue_codepoint-IsDisplayable zero codepoint whole cs e = end
continue_codepoint-IsDisplayable (suc n) codepoint whole [] e = ground arith
continue_codepoint-IsDisplayable (suc n) codepoint whole (c ∷ cs) e =
    elim (Bool-cases (c / 64 == 2)) [
      | inr other ↦ ground (arith, other)
      | inl continued ↦
          byte c (ground (arith, continued)) (λ k. ground (arith, continued, k))
            (continue_codepoint-IsDisplayable n (codepoint * 64 + c % 64) whole cs
              (ground (arith, continued)))
    ]

-- A piece is displayable, and what is left is no longer than what was there and holds bytes.
pub record IsSound (cs : Text) (p : Piece) : Type 0 where
  pub displayable : IsDisplayable p.emitted
  pub shorter : length p.rest ≤ length cs
  pub clean : All (λ c. c < 256) p.rest

All-drop : (n : ℕ) (cs : Text) → All (λ c. c < 256) cs → All (λ c. c < 256) (drop n cs)
All-drop zero cs h = h
All-drop (suc n) [] h = h
All-drop (suc n) (c ∷ cs) (h, k) = All-drop n cs k

length-drop-le : (n : ℕ) (cs : Text) → length (drop n cs) ≤ length cs
length-drop-le zero cs = omega arith
length-drop-le (suc n) [] = omega arith
length-drop-le (suc n) (c ∷ cs) = omega (arith, length-drop-le n cs)

module _ (c : ℕ) (cs : Text) (h : c < 256) (k : All (λ b. b < 256) cs) where
  escaped-IsSound : IsSound cs (escaped c cs)
  escaped-IsSound = record {
    displayable = hex_escape-IsDisplayable c h;
    shorter = omega arith;
    clean = k;
  }

  multibyte-IsSound :
      (codepoint more minimum : ℕ) → 128 ≤ c → IsSound cs (multibyte codepoint more minimum c cs)
  unfolding multibyte
  multibyte-IsSound codepoint more minimum l =
      elim (Option-cases (continue_codepoint more codepoint cs)) [
        | inl broken ↦ rw (broken, multibyte) escaped-IsSound
        | inr (whole, found) ↦ elim (Bool-cases (is_scalar minimum whole)) [
          | inr odd ↦ rw (found, multibyte) (rw odd escaped-IsSound)
          | inl scalar ↦ elim (Bool-cases (terminal_format_codepoint whole)) [
            | inl format ↦
                rw (found, multibyte)
                  (rw scalar (
                    rw format (record {
                      displayable = unicode_escape-IsDisplayable whole;
                      shorter = length-drop-le more cs;
                      clean = All-drop more cs k;
                    })))
            | inr letter ↦
                rw (found, multibyte)
                  (rw scalar (
                    rw letter (record {
                      displayable =
                          byte c (omega arith) (λ e. omega arith)
                            (continue_codepoint-IsDisplayable more codepoint whole cs found);
                      shorter = length-drop-le more cs;
                      clean = All-drop more cs k;
                    })))
          ]
        ]
      ]

  lead-IsSound :
      128 ≤ c
      → IsSound cs (
          if c / 32 == 6
          then multibyte (c % 32) 1 0x80 c cs
          else if c / 16 == 14
          then multibyte (c % 16) 2 0x800 c cs
          else if c / 8 == 30
          then multibyte (c % 8) 3 0x10000 c cs
          else escaped c cs)
  lead-IsSound l = elim (Bool-cases (c / 32 == 6)) [
    | inl two ↦ rw two (multibyte-IsSound (c % 32) 1 0x80 l)
    | inr more ↦ rw more (elim (Bool-cases (c / 16 == 14)) [
      | inl three ↦ rw three (multibyte-IsSound (c % 16) 2 0x800 l)
      | inr most ↦ rw most (elim (Bool-cases (c / 8 == 30)) [
        | inl four ↦ rw four (multibyte-IsSound (c % 8) 3 0x10000 l)
        | inr stray ↦ rw stray escaped-IsSound
      ])
    ])
  ]

  plain_piece-IsSound : IsSound cs (plain_piece c cs)
  unfolding plain_piece
  plain_piece-IsSound = elim (Bool-cases (ltb c 0x20 || c == 0x7f)) [
    | inl control ↦ rw (control, plain_piece) escaped-IsSound
    | inr printable ↦
        rw (printable, plain_piece)
          (elim (Bool-cases (ltb c 0x80)) [
            | inl ascii ↦ rw ascii (record {
              displayable =
                  byte c (ground (arith, printable)) (λ e. ground (arith, printable, e)) end;
              shorter = omega arith;
              clean = k;
            })
            | inr high ↦ rw high (lead-IsSound (ground (arith, high)))
          ])
  ]

-- An SGR sequence behind its bracket.
record IsSgr (cs : Text) (p : Piece) : Type 0 where
  parameters : Text
  numeric : all is_parameter parameters ≡ true
  closing : p.emitted ≡ parameters ++ (b'm' ∷ [])
  shorter : length p.rest ≤ length cs
  clean : All (λ c. c < 256) p.rest

sgr_from-IsSgr : (cs : Text) (p : Piece) → All (λ c. c < 256) cs → sgr_from cs ≡ some p → IsSgr cs p
unfolding sgr_from
sgr_from-IsSgr [] p k e = ground arith
sgr_from-IsSgr (c ∷ cs) p (h, k) e = elim (Bool-cases (is_parameter c)) [
  | inl parameter ↦ elim (Option-cases (sgr_from cs)) [
    | inl open_yet ↦ ground (arith, parameter, open_yet)
    | inr (q, found) ↦
        let m = sgr_from-IsSgr cs q k found in
        subst (IsSgr (c ∷ cs))
          (some-injective {a = behind (c ∷ []) q} (ground (arith, parameter, found)))
          (record {
            parameters = c ∷ m.parameters;
            numeric = ground (arith, parameter, m.numeric);
            closing = cc (m.closing);
            shorter = omega (arith, m.shorter);
            clean = m.clean;
          })
  ]
  | inr other ↦ elim (Bool-cases (c == b'm')) [
    | inr foreign ↦ ground (arith, other, foreign)
    | inl last ↦
        subst (IsSgr (c ∷ cs))
          (some-injective {a = record { emitted = b'm' ∷ []; rest = cs }}
            (ground (arith, other, last)))
          (record {
            parameters = [];
            numeric = refl;
            closing = refl;
            shorter = omega arith;
            clean = k;
          })
  ]
]

sgr-IsSound : (cs : Text) (p : Piece) → All (λ c. c < 256) cs → sgr cs ≡ some p → IsSound cs p
unfolding sgr
sgr-IsSound [] p k e = ground arith
sgr-IsSound (b ∷ []) p k e = ground arith
sgr-IsSound (b ∷ c ∷ cs) p (h, k) e = elim (Bool-cases (b == b'[')) [
  | inr foreign ↦ ground (arith, foreign)
  | inl bracket ↦ elim (Option-cases (sgr_from (c ∷ cs))) [
    | inl open_yet ↦ ground (arith, bracket, open_yet)
    | inr (q, found) ↦
        let m = sgr_from-IsSgr (c ∷ cs) q k found in
        subst (IsSound (b ∷ c ∷ cs))
          (some-injective {a = behind (0x1b ∷ b'[' ∷ []) q} (ground (arith, bracket, found)))
          (record {
            displayable = rendition m.parameters m.numeric end (cc (m.closing));
            shorter = omega (arith, m.shorter);
            clean = m.clean;
          })
  ]
]

pub piece-IsSound : (c : ℕ) (cs : Text) → c < 256 → All (λ b. b < 256) cs → IsSound cs (piece c cs)
unfolding piece
piece-IsSound c cs h k = elim (Option-cases (if c == 0x1b then sgr cs else none)) [
  | inl plain ↦ rw (plain, piece) (plain_piece-IsSound c cs h k)
  | inr (p, found) ↦ rw (found, piece) (sgr-IsSound cs p k (ground (arith, found)))
]
