-- ===== src/Logging/Sanitize/Bounds.antt =====
-- What a sanitized value can hold.
use fedora_firewall_control.Common.{
  ◌≡◌, ◌≢◌, ◌≤◌, ◌-◌, arith, [], ◌∷◌, refl, All, ℕ, zero, suc, length, take, drop, All-append,
  length-append, Bool,
}
use fedora_firewall_control.Text.{Text, drop_while, lit}
use fedora_firewall_control.Logging.Sanitize.{
  sanitize_rest, sanitize_log_value, clean_byte, redaction, is_ipify_key_character,
}

length-take : (n : ℕ) (s : Text) → (length (take n s) ≤ n) × (length (take n s) ≤ length s)
length-take zero s = omega arith
length-take (suc n) [] = omega arith
length-take (suc n) (c ∷ s) = let (a, b) = length-take n s in (omega arith, omega arith)

length-drop : (n : ℕ) (s : Text) → length (drop n s) ≤ length s
length-drop zero s = omega arith
length-drop (suc n) [] = omega arith
length-drop (suc n) (c ∷ s) = omega (arith, length-drop n s)

length-drop_while : (p : ℕ → Bool) (s : Text) → length (drop_while p s) ≤ length s
unfolding drop_while
length-drop_while p [] = omega arith
length-drop_while p (c ∷ s) = ground (arith, length-drop_while p s)

-- A byte that is no control byte
abbrev pub IsPrintable : ℕ → Type 0
IsPrintable c = (32 ≤ c) × (c ≢ 127)

clean_byte-IsPrintable : (c : ℕ) → IsPrintable (clean_byte c)
unfolding clean_byte
clean_byte-IsPrintable c = ground arith

redaction-IsPrintable : All IsPrintable redaction
unfolding redaction lit
redaction-IsPrintable = ground arith

All-take : (P : ℕ → Type 0) (n : ℕ) (s : Text) → All P s → All P (take n s)
All-take P zero s h = tt
All-take P (suc n) [] h = tt
All-take P (suc n) (c ∷ s) (h, k) = (h, All-take P n s k)

-- The rest of the value behind a key
abbrev behind_key : Text → Text
behind_key value = drop_while is_ipify_key_character (drop 3 value)

sanitize_rest-length :
    (fuel room : ℕ) (value : Text) → length (sanitize_rest fuel room value) ≤ room
unfolding sanitize_rest
sanitize_rest-length zero room value = omega arith
sanitize_rest-length (suc fuel) zero value = omega arith
sanitize_rest-length (suc fuel) (suc room) [] = omega arith
sanitize_rest-length (suc fuel) (suc room) (c ∷ cs) = ground (
  arith,
  length-take (suc room) redaction,
  length-append (take (suc room) redaction)
      (sanitize_rest fuel (suc room - length (take (suc room) redaction)) (behind_key (c ∷ cs))),
  sanitize_rest-length fuel (suc room - length (take (suc room) redaction)) (behind_key (c ∷ cs)),
  sanitize_rest-length fuel room cs,
)

sanitize_rest-IsPrintable :
    (fuel room : ℕ) (value : Text) → All IsPrintable (sanitize_rest fuel room value)
unfolding sanitize_rest
sanitize_rest-IsPrintable zero room value = tt
sanitize_rest-IsPrintable (suc fuel) zero value = tt
sanitize_rest-IsPrintable (suc fuel) (suc room) [] = tt
sanitize_rest-IsPrintable (suc fuel) (suc room) (c ∷ cs) = ground (
  arith,
  All-append IsPrintable (take (suc room) redaction)
      (sanitize_rest fuel (suc room - length (take (suc room) redaction)) (behind_key (c ∷ cs)))
      (All-take IsPrintable (suc room) redaction redaction-IsPrintable)
      (sanitize_rest-IsPrintable fuel (suc room - length (take (suc room) redaction))
        (behind_key (c ∷ cs))),
  sanitize_rest-IsPrintable fuel room cs,
  clean_byte-IsPrintable c,
)

-- A sanitized value has at most the given number of bytes, and none of them is a control byte.
pub sanitize_log_value-bounds :
    (value : Text) (maximum_length : ℕ)
    → (length (sanitize_log_value value maximum_length) ≤ maximum_length)
      × All IsPrintable (sanitize_log_value value maximum_length)
unfolding sanitize_log_value
sanitize_log_value-bounds value maximum_length = (
  sanitize_rest-length (length value) maximum_length value,
  sanitize_rest-IsPrintable (length value) maximum_length value,
)

behind_key-length : (c : ℕ) (cs : Text) → length (behind_key (c ∷ cs)) ≤ length cs
behind_key-length c cs =
    omega (arith, length-drop 2 cs, length-drop_while is_ipify_key_character (drop 2 cs))

-- More rounds than the value has bytes change nothing: the loop has ended by then.
pub sanitize_rest-fuel :
    (fuel more room : ℕ) (value : Text)
    → length value ≤ fuel
    → length value ≤ more
    → sanitize_rest fuel room value ≡ sanitize_rest more room value
unfolding sanitize_rest
sanitize_rest-fuel zero zero room value h k = refl
sanitize_rest-fuel zero (suc more) zero value h k = refl
sanitize_rest-fuel zero (suc more) (suc room) [] h k = refl
sanitize_rest-fuel zero (suc more) (suc room) (c ∷ cs) h k = absurd (omega arith)
sanitize_rest-fuel (suc fuel) zero zero value h k = refl
sanitize_rest-fuel (suc fuel) zero (suc room) [] h k = refl
sanitize_rest-fuel (suc fuel) zero (suc room) (c ∷ cs) h k = absurd (omega arith)
sanitize_rest-fuel (suc fuel) (suc more) zero value h k = refl
sanitize_rest-fuel (suc fuel) (suc more) (suc room) [] h k = refl
sanitize_rest-fuel (suc fuel) (suc more) (suc room) (c ∷ cs) h k = cc (
  sanitize_rest-fuel fuel more room cs (omega arith) (omega arith),
  sanitize_rest-fuel fuel more (suc room - length (take (suc room) redaction)) (behind_key (c ∷ cs))
      (omega (arith, behind_key-length c cs)) (omega (arith, behind_key-length c cs)),
)
