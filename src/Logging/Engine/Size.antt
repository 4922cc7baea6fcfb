-- ===== src/Logging/Engine/Size.antt =====
-- How large a log file grows.
use fedora_firewall_control.Common.{
  ℕ, ◌≡◌, ◌≤◌, ◌+◌, refl, ◌++◌, [], ◌∷◌, arith, length, length-append, false, ◌<◌, ◌⊎◌, true, ltb,
  if◌then◌else◌,
}
use fedora_firewall_control.Text.{Text, lit, text_eq}
use fedora_firewall_control.Text.Laws.{text_eq_refl}
use fedora_firewall_control.Logging.{
  LogEvent, LogChannel, LogLevel, channel_text, level_text, format_log_event, operations, audit,
  security, info, warning,
}
use fedora_firewall_control.Logging.Sanitize.{sanitize_log_value}
use fedora_firewall_control.Logging.Sanitize.Bounds.{sanitize_log_value-bounds}
use fedora_firewall_control.Logging.Engine.{
  maximum_log_bytes, text_of, is_oversized, write_entry, record_event, rotation,
}
use fedora_firewall_control.Storage.Reading.{
  PrivateFile, absent, refused, holding, read_private_file, PrivateRead,
}

length-channel_text : (c : LogChannel) → length (channel_text c) ≤ 10
unfolding channel_text lit
length-channel_text operations = omega arith
length-channel_text audit = omega arith
length-channel_text security = omega arith
length-channel_text LogChannel.error = omega arith

length-level_text : (l : LogLevel) → length (level_text l) ≤ 5
unfolding level_text lit
length-level_text info = omega arith
length-level_text warning = omega arith
length-level_text LogLevel.error = omega arith

-- A field, a tab and the rest
length-field :
    (field rest : Text) (c bound more : ℕ)
    → length field ≤ bound
    → length rest ≤ more
    → length (field ++ (c ∷ rest)) ≤ bound + (1 + more)
length-field field rest c bound more h k = omega (arith, length-append field (c ∷ rest))

length-format_log_event :
    (t : Text) (e : LogEvent) → length t ≡ 20 → length (format_log_event t e) ≤ 648
unfolding format_log_event
length-format_log_event t e h = length-field t _ b'\t' 20 627 (omega arith) (
    length-field (level_text e.level) _ b'\t' 5 621 (length-level_text e.level) (
      length-field (channel_text e.channel) _ b'\t' 10 610 (length-channel_text e.channel) (
        length-field (sanitize_log_value e.event 96) _ b'\t' 96 513
          (sanitize_log_value-bounds e.event 96).0
          (length-field (sanitize_log_value e.detail 512) [] b'\n' 512 0
            (sanitize_log_value-bounds e.detail 512).0 (omega arith)))))

not_oversized :
    text_eq (lit "No such file or directory") (lit "storage file exceeds safe size limit") ≡ false
unfolding text_eq lit
not_oversized = refl

no_error-not_oversized : text_eq [] (lit "storage file exceeds safe size limit") ≡ false
unfolding text_eq lit
no_error-not_oversized = refl

abbrev pub size : PrivateFile → ℕ
size file = length (text_of file)

-- Whatever a log file holds, even more than the limit, it holds at most 512 KiB after an event was
-- recorded in it at a time of twenty bytes. A file that the checks refuse counts as empty, since
-- nothing is written to it.
pub record_event-size :
    (t : Text) (e : LogEvent) (file : PrivateFile)
    → length t ≡ 20
    → size (record_event t e file) ≤ maximum_log_bytes
unfolding record_event write_entry read_private_file is_oversized
record_event-size t e absent h = ground (
  arith,
  length-format_log_event t e h,
  length-format_log_event t (rotation e) h,
  not_oversized,
  length-append (format_log_event t (rotation e)) (format_log_event t e),
)
record_event-size t e (refused why) h = ground (
  arith,
  length-format_log_event t e h,
  length-format_log_event t (rotation e) h,
  length-append (format_log_event t (rotation e)) (format_log_event t e),
)
record_event-size t e (holding content) h = ground (
  arith,
  length-format_log_event t e h,
  length-format_log_event t (rotation e) h,
  text_eq_refl (lit "storage file exceeds safe size limit"),
  length-append (format_log_event t (rotation e)) (format_log_event t e),
  length-append content (format_log_event t e),
)

-- The two answers of the bounded read.
abbrev whole : Text → PrivateRead
whole content = record { succeeded = true; text = content; error = [] }

abbrev too_long : PrivateRead
too_long = record {
  succeeded = false;
  text = [];
  error = lit "storage file exceeds safe size limit";
}

write_entry-whole :
    (notice entry content : Text)
    → write_entry notice entry (whole content) (holding content) ≡ (
        if ltb maximum_log_bytes (length content + length entry)
        then holding (notice ++ entry)
        else holding (content ++ entry))
unfolding write_entry is_oversized
write_entry-whole notice entry content = cc no_error-not_oversized

write_entry-too_long :
    (notice entry content : Text)
    → write_entry notice entry too_long (holding content) ≡ holding (notice ++ entry)
unfolding write_entry is_oversized
write_entry-too_long notice entry content =
    ground (arith, text_eq_refl (lit "storage file exceeds safe size limit"))

read-cases :
    (content : Text)
    → (read_private_file maximum_log_bytes (holding content) ≡ whole content)
      ⊎ ((read_private_file maximum_log_bytes (holding content) ≡ too_long)
          × (maximum_log_bytes < length content))
unfolding read_private_file
read-cases content = ground arith

-- An event that is recorded in a file with text stands at its end: behind all that the file held,
-- or, where both together exceed 512 KiB, behind the notice of the rotation alone.
pub record_event-last :
    (t : Text) (e : LogEvent) (content : Text)
    → (record_event t e (holding content) ≡ holding (content ++ format_log_event t e))
      ⊎ ((record_event t e (holding content)
            ≡ holding (format_log_event t (rotation e) ++ format_log_event t e))
          × (maximum_log_bytes < length content + length (format_log_event t e)))
unfolding record_event
record_event-last t e content = ground (
  arith,
  read-cases content,
  write_entry-whole (format_log_event t (rotation e)) (format_log_event t e) content,
  write_entry-too_long (format_log_event t (rotation e)) (format_log_event t e) content,
)
