-- ===== src/Broker/Quoting.antt =====
-- crates/redfog-broker/src/session.rs: `shell_quote`, and the command line of `write_session_script`.
use redfog.Base.{◌==◌, if◌then◌else◌, List, [], ◌∷◌, ◌++◌, map}
use redfog.Base.Text.{Text}

-- `s.replace('\'', r"'\''")`.
unfoldable pub replace_quotes : Text → Text
replace_quotes [] = []
replace_quotes (c ∷ cs) =
    let rest = replace_quotes cs in if c == 39 then 39 ∷ 92 ∷ 39 ∷ 39 ∷ rest else c ∷ rest

unfoldable pub shell_quote : Text → Text
unfolding replace_quotes
shell_quote s = 39 ∷ replace_quotes s ++ 39 ∷ []

-- `join(" ")`.
unfoldable pub join_spaced : List Text → Text
join_spaced [] = []
join_spaced (part ∷ []) = part
join_spaced (part ∷ next ∷ parts) = part ++ 32 ∷ join_spaced (next ∷ parts)

unfoldable pub payload_cmd : List Text → Text
unfolding shell_quote join_spaced
payload_cmd payload = join_spaced (map shell_quote payload)
