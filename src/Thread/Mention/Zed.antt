-- ===== src/Thread/Mention/Zed.antt =====
-- mention.rs: the arm `zed` of `MentionUri::parse`.
use mjx_acp_agent.Thread.Mention.Lines.{parse_line_range}
use mjx_acp_agent.Prelude.{
  ℕ, Option, unwrap_or, Result, if◌then◌else◌, true, false, [], ◌∷◌, none, some, ok, err, ◌>>=◌,
}
use mjx_acp_agent.Prelude.Text.{text_beq, starts_with, is_empty, parse_u32, strip_prefix, Text, str}
use mjx_acp_agent.Thread.Mention.{
  default_deprecated_rule_id, LineRange, Crates, MentionUri, MentionUriError, context,
  invalid_zed_url, file, pasted_image, directory, symbol, thread, rule, diagnostics, selection,
  terminal_selection, git_diff, merge_conflict, skill,
}
use mjx_acp_agent.Thread.Mention.Queries.{
  Pairs, SkillParams, parse_column, query_param, single_query_param, skill_params,
  validate_query_params, diagnostics_params,
}

-- What the crate url says of a parsed URL.
pub record UrlParts : Type 0 where
  pub path : Text
  pub query_pairs : Pairs
  pub fragment : Option Text

-- `single_query_param(&url, name)?` with a default.
abbrev pub single_or : Text → Text → UrlParts → Result Text MentionUriError
single_or name default url = do
  value ← single_query_param name url.query_pairs
  ok (unwrap_or default value)

-- `single_query_param(&url, name)?.context(missing)?`
abbrev pub single : Text → Text → UrlParts → Result Text MentionUriError
single name missing url = do value ← single_query_param name url.query_pairs; context missing value

abbrev pub fragment_lines : Text → UrlParts → Result LineRange MentionUriError
fragment_lines missing url = do fragment ← context missing url.fragment; parse_line_range fragment

abbrev pub column_of : UrlParts → Option ℕ
column_of url = parse_column (query_param (str "column") url.query_pairs)

module _ (C : Crates) where
  abbrev pub Parsed : Type 0
  Parsed = Result (MentionUri C) MentionUriError

  unfoldable pub thread_mention : Text → UrlParts → Parsed
  thread_mention id url = do
    name ← single (str "name") (str "Missing thread name") url
    ok (thread id name)

  unfoldable pub rule_mention : Text → UrlParts → Parsed
  rule_mention id url = do
    name ← single (str "name") (str "Missing rule name") url
    ok (rule (if is_empty id then default_deprecated_rule_id C else C.user_uuid id) name)

  unfoldable pub diagnostics_mention : UrlParts → Parsed
  diagnostics_mention url = do
    flags ← diagnostics_params url.query_pairs (true, false)
    ok (diagnostics flags.0 flags.1)

  unfoldable pub untitled_mention : UrlParts → Parsed
  untitled_mention url = do
    lines ← fragment_lines (str "Missing fragment for untitled buffer selection") url
    _ ← validate_query_params (str "column" ∷ []) url.query_pairs
    ok (selection none lines (column_of url))

  unfoldable pub symbol_mention : Text → UrlParts → Parsed
  symbol_mention name url = do
    lines ← fragment_lines (str "Missing fragment for untitled buffer selection") url
    path ← single (str "path") (str "Missing path for symbol") url
    ok (symbol path name lines)

  unfoldable pub selection_mention : UrlParts → Parsed
  selection_mention url = do
    _ ← validate_query_params (str "path" ∷ str "column" ∷ []) url.query_pairs
    lines ← fragment_lines (str "Missing fragment for selection") url
    path ← context (str "Missing path for selection") (query_param (str "path") url.query_pairs)
    ok (selection (some path) lines (column_of url))

  unfoldable pub terminal_mention : UrlParts → Parsed
  terminal_mention url = do
    lines ← single_or (str "lines") (str "0") url
    ok (terminal_selection (unwrap_or 0 (parse_u32 lines)))

  unfoldable pub skill_mention : UrlParts → Parsed
  skill_mention url = do
    let unseen : SkillParams = record { name = none; source = none; skill_file_path = none }
    seen ← skill_params url.query_pairs unseen
    name ← context (str "missing skill name") seen.name
    source ← context (str "missing skill source") seen.source
    path ← context (str "missing skill file path") seen.skill_file_path
    ok (skill name source path)

  -- The conditions from `/agent/file` on.
  unfoldable pub by_prefix : Text → Text → UrlParts → Parsed
  by_prefix input path url =
      if starts_with (str "/agent/file") path
      then (single (str "path") (str "Missing path for file") url >>= λ path. ok (file path))
      else if starts_with (str "/agent/directory") path
      then (single (str "path") (str "Missing path for directory") url >>= λ path.
          ok (directory path))
      else if starts_with (str "/agent/selection") path
      then selection_mention url
      else if starts_with (str "/agent/terminal-selection") path
      then terminal_mention url
      else if starts_with (str "/agent/git-diff") path
      then (single_or (str "base") (str "main") url >>= λ base_ref. ok (git_diff base_ref))
      else if starts_with (str "/agent/merge-conflict") path
      then (single_or (str "path") [] url >>= λ file_path. ok (merge_conflict file_path))
      else if starts_with (str "/agent/skill") path
      then skill_mention url
      else err (invalid_zed_url input)

  -- The conditions between rules and `/agent/file`.
  unfoldable pub by_path : Text → Text → UrlParts → Parsed
  by_path input path url =
      if text_beq path (str "/agent/diagnostics")
      then diagnostics_mention url
      else if starts_with (str "/agent/pasted-image") path
      then (single_or (str "name") (str "Image") url >>= λ name. ok (pasted_image name))
      else if starts_with (str "/agent/untitled-buffer") path
      then untitled_mention url
      else elim (strip_prefix (str "/agent/symbol/") path) [
        | some name ↦ symbol_mention name url
        | none ↦ by_prefix input path url
      ]

  unfoldable pub zed_mention : Text → UrlParts → Parsed
  zed_mention input url = elim (strip_prefix (str "/agent/thread/") url.path) [
    | some id ↦ thread_mention id url
    | none ↦ elim (strip_prefix (str "/agent/rule/") url.path) [
      | some id ↦ rule_mention id url
      | none ↦ by_path input url.path url
    ]
  ]
