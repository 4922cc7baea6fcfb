-- ===== src/Logging/Sanitize.antt =====
-- `sanitize_log_value` of src/logging/utils/logging_utils.cpp.
pub mod Bounds
use fedora_firewall_control.Common.{
  ℕ, zero, suc, ◌-◌, Bool, ◌&&◌, ◌||◌, [], ◌∷◌, ◌++◌, ltb, ◌==◌, if◌then◌else◌, length, take, drop,
  any,
}
use fedora_firewall_control.Text.{Text, lit, is_alnum, drop_while}
use fedora_firewall_control.Text.Search.{starts_with}

unfoldable pub is_ipify_key_character : ℕ → Bool
unfolding is_alnum
is_ipify_key_character c = is_alnum c || c == b'_' || c == b'-'

unfoldable pub redaction : Text
redaction = lit "[REDACTED_IPIFY_KEY]"

-- A control byte becomes a space.
unfoldable pub clean_byte : ℕ → ℕ
clean_byte c = if ltb c 32 || c == 127 then b' ' else c

-- The value continues with `at_` and at least one key byte.
unfoldable pub starts_key : Text → Bool
starts_key value =
    starts_with value (lit "at_") && any is_ipify_key_character (take 1 (drop 3 value))

-- The loop over what is left of the value; `room` is `maximum_length - sanitized.size()`. Each
-- round takes at least one byte of the value, so its length is fuel enough.
unfoldable pub sanitize_rest : ℕ → ℕ → Text → Text
unfolding starts_key clean_byte redaction is_ipify_key_character drop_while starts_with
sanitize_rest zero room value = []
sanitize_rest (suc fuel) zero value = []
sanitize_rest (suc fuel) (suc room) [] = []
sanitize_rest (suc fuel) (suc room) (c ∷ cs) =
    let written = take (suc room) redaction in
    let redacted =
      written
      ++ sanitize_rest fuel (suc room - length written)
          (drop_while is_ipify_key_character (drop 3 (c ∷ cs))) in
    let kept = clean_byte c ∷ sanitize_rest fuel room cs in
    if starts_key (c ∷ cs) then redacted else kept

unfoldable pub sanitize_log_value : Text → ℕ → Text
unfolding sanitize_rest starts_key clean_byte redaction is_ipify_key_character drop_while
    starts_with
sanitize_log_value value maximum_length = sanitize_rest (length value) maximum_length value
