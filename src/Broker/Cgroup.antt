-- ===== src/Broker/Cgroup.antt =====
-- crates/redfog-broker/src/session.rs: `parse_logind_session_id`, on the bytes of a cgroup file.
use redfog.Base.{◌==◌, if◌then◌else◌, Option, none, some, List, [], ◌∷◌}
use redfog.Base.Text.{Text, codes, same_bytes, text_discrete}
use redfog.Rtsp.Lines.{lines, strip_prefix}

abbrev pub marker : Text
marker = codes "/session-"

abbrev pub or_later : Option Text → Option Text → Option Text
or_later (some found) later = some found
or_later none later = later

-- `line.find(MARKER)`, with what stands behind the marker.
unfoldable pub after_marker : Text → Option Text
unfolding strip_prefix
after_marker [] = none
after_marker (c ∷ cs) = or_later (strip_prefix marker (c ∷ cs)) (after_marker cs)

-- `rest.split('/').next()`.
unfoldable pub first_segment : Text → Text
first_segment [] = []
first_segment (c ∷ cs) = let more = first_segment cs in if c == b'/' then [] else c ∷ more

-- `segment.strip_suffix(".scope").unwrap_or(segment)`.
unfoldable pub strip_scope : Text → Text
unfolding text_discrete
strip_scope [] = []
strip_scope (c ∷ cs) =
    let rest = strip_scope cs in if same_bytes (c ∷ cs) (codes ".scope") then [] else c ∷ rest

-- An id that is not empty.
abbrev pub non_empty : Text → Option Text
non_empty [] = none
non_empty (c ∷ cs) = some (c ∷ cs)

-- The id that stands behind the marker.
abbrev pub behind : Option Text → Option Text
behind none = none
behind (some rest) = non_empty (strip_scope (first_segment rest))

unfoldable pub line_session_id : Text → Option Text
unfolding after_marker first_segment strip_scope
line_session_id line = behind (after_marker line)

unfoldable pub first_session_id : List Text → Option Text
unfolding line_session_id
first_session_id [] = none
first_session_id (line ∷ more) = or_later (line_session_id line) (first_session_id more)

unfoldable pub parse_logind_session_id : Text → Option Text
unfolding lines first_session_id
parse_logind_session_id contents = first_session_id (lines contents)
