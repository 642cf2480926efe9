-- ===== src/Thread/Mention/Queries.antt =====
-- mention.rs: the query parameters of a mention's URL.
use mjx_acp_agent.Thread.Mention.Lines.{checked_pred}
use mjx_acp_agent.Prelude.{
  ◌||◌, and_then, ◌||◌, if◌then◌else◌, ℕ, Bool, List, Option, Result, false, [], ◌∷◌, none, some,
  ok, err, ◌>>=◌,
}
use mjx_acp_agent.Prelude.Text.{parse_u32, text_beq, Text, str}
use mjx_acp_agent.Thread.Mention.{MentionUriError, message}

-- `url.query_pairs()`
abbrev pub Pairs : Type 0
Pairs = List (Text × Text)

unfoldable pub query_param : Text → Pairs → Option Text
query_param name [] = none
query_param name ((key, value) ∷ pairs) =
    let rest = query_param name pairs in if text_beq key name then some value else rest

unfoldable pub single_query_param : Text → Pairs → Result (Option Text) MentionUriError
single_query_param name [] = ok none
single_query_param name ((k, v) ∷ []) =
    if text_beq k name then ok (some v) else err (message (str "invalid query parameter"))
single_query_param name (p ∷ q ∷ pairs) = err (message (str "too many query pairs"))

abbrev pub allows : List Text → Text → Bool
allows [] key = false
allows (name ∷ names) key = text_beq key name || allows names key

unfoldable pub validate_query_params : List Text → Pairs → Result (Unit {0}) MentionUriError
validate_query_params allowed [] = ok tt
validate_query_params allowed ((key, value) ∷ pairs) =
    let rest = validate_query_params allowed pairs in
    if allows allowed key then rest else err (message (str "invalid query parameter"))

unfoldable pub parse_column : Option Text → Option ℕ
parse_column input = and_then input λ t. and_then (parse_u32 t) checked_pred

-- The loop of `/agent/diagnostics`, on `include_errors` and `include_warnings`.
unfoldable pub diagnostics_params : Pairs → Bool × Bool → Result (Bool × Bool) MentionUriError
diagnostics_params [] flags = ok flags
diagnostics_params ((key, value) ∷ pairs) flags =
    let on = text_beq value (str "true") in
    let warn = diagnostics_params pairs (flags.0, on) in
    let errors = diagnostics_params pairs (on, flags.1) in
    if text_beq key (str "include_warnings")
    then warn
    else if text_beq key (str "include_errors")
    then errors
    else err (message (str "invalid query parameter"))

-- The three parameters of a skill, as far as they were seen.
pub record SkillParams : Type 0 where
  pub name : Option Text
  pub source : Option Text
  pub skill_file_path : Option Text

-- `slot.replace(value)`, which must find nothing.
abbrev pub fill : Text → Option Text → Text → Result (Option Text) MentionUriError
fill failed none value = ok (some value)
fill failed (some old) value = err (message failed)

-- One round of the loop of `/agent/skill`.
unfoldable pub skill_param : Text × Text → SkillParams → Result SkillParams MentionUriError
skill_param (key, value) seen =
    if text_beq key (str "name")
    then (fill (str "duplicate skill name query parameter") seen.name value >>= λ name.
        ok (record seen { name = name }))
    else if text_beq key (str "source")
    then (fill (str "duplicate skill source query parameter") seen.source value >>= λ source.
        ok (record seen { source = source }))
    else if text_beq key (str "path")
    then (fill (str "duplicate skill file path query parameter") seen.skill_file_path value
        >>= λ path. ok (record seen { skill_file_path = path }))
    else err (message (str "invalid query parameter"))

unfoldable pub skill_params : Pairs → SkillParams → Result SkillParams MentionUriError
skill_params [] seen = ok seen
skill_params (pair ∷ pairs) seen = do now ← skill_param pair seen; skill_params pairs now
