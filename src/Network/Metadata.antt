-- ===== src/Network/Metadata.antt =====
-- The pure parts of src/network/network_metadata.cpp: the route, and nmcli's escaped fields.
use fedora_firewall_control.Common.{Bool, true, false, List, [], ◌∷◌, ◌++◌, ◌==◌, if◌then◌else◌}
use fedora_firewall_control.Text.{Text, lit, text_eq}
use fedora_firewall_control.Text.Words.{lines, split_words}

-- The loop of `split_escaped_colons`: the fields so far, the field under construction, and whether
-- the last byte was a backslash.
split_from : List Text → Text → Bool → Text → List Text
split_from fields field escaped [] =
    fields ++ ((if escaped then field ++ b'\\' ∷ [] else field) ∷ [])
split_from fields field true (c ∷ cs) = split_from fields (field ++ c ∷ []) false cs
split_from fields field false (c ∷ cs) =
    let skipped = split_from fields field true cs in
    let closed = split_from (fields ++ field ∷ []) [] false cs in
    let longer = split_from fields (field ++ c ∷ []) false cs in
    if c == b'\\' then skipped else if c == b':' then closed else longer

unfoldable pub split_escaped_colons : Text → List Text
unfolding split_from
split_escaped_colons line = split_from [] [] false line

pub record Route : Type 0 where
  pub default_gateway : Text
  pub default_interface : Text

-- The loop over neighbouring words.
route_words : Route → List Text → Route
route_words r [] = r
route_words r (word ∷ []) = r
route_words r (word ∷ next ∷ rest) =
    route_words
      (record {
        default_gateway = if text_eq word (lit "via") then next else r.default_gateway;
        default_interface = if text_eq word (lit "dev") then next else r.default_interface;
      })
      (next ∷ rest)

is_default : List Text → Bool
is_default [] = false
is_default (word ∷ rest) = text_eq word (lit "default")

abbrev no_route : Route
no_route = record { default_gateway = []; default_interface = [] }

route_lines : List Text → Route
route_lines [] = no_route
route_lines (line ∷ rest) =
    let later = route_lines rest in
    if is_default (split_words line) then route_words no_route (split_words line) else later

-- The first line that starts with `default` counts.
unfoldable pub parse_default_route : Text → Route
unfolding route_lines route_words is_default split_words text_eq lines
parse_default_route route_output = route_lines (lines route_output)
