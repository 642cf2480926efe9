-- ===== src/Thread/Mention/Parse.antt =====
-- mention.rs: `MentionUri::parse` and `MentionUri::parse_hyperlink`.
use mjx_acp_agent.Thread.Mention.Lines.{parse_line_range}
use mjx_acp_agent.Thread.Mention.Native.{native_path}
use mjx_acp_agent.Thread.Mention.Zed.{UrlParts, zed_mention}
use mjx_acp_agent.Thread.Mention.Queries.{parse_column, query_param, validate_query_params}
use mjx_acp_agent.Thread.Mention.Targets.{
  parse_absolute_path, decode_yes, is_bare_path, parse_hyperlink_path, strip_backticks,
  bare_path_target,
}
use mjx_acp_agent.Thread.Mention.Escapes.{percent_decode}
use mjx_acp_agent.Prelude.{
  ◌||◌, ◌||◌, to_option, ◌++◌, unwrap_or, ◌++◌, if◌then◌else◌, map_err, Result, [], ◌∷◌, none, some,
  ok, err, ◌>>=◌,
}
use mjx_acp_agent.Prelude.Text.{trim_start_matches, text_beq, ends_with, Text, str}
use mjx_acp_agent.Thread.Paths.{is_windows, PathStyle}
use mjx_acp_agent.Thread.Mention.{
  Crates, MentionUri, MentionUriError, message, unrecognized_scheme, file, directory, symbol,
  selection, fetch,
}

-- `with_context`: the error is the description, with the input behind it.
abbrev pub with_context {ℓ} :
    {A : Type ℓ} → Text → Text → Result A MentionUriError → Result A MentionUriError
with_context about input r = map_err (λ e. message (about ++ input)) r

module _ (C : Crates) where
  unfoldable pub file_path : PathStyle → UrlParts → Text
  file_path path_style url =
      let decoded =
        percent_decode C
          (if is_windows path_style then trim_start_matches b'/' url.path else url.path) in
      if is_windows path_style then native_path decoded else decoded

  -- The arm `file` with a fragment.
  unfoldable pub file_lines : Text → Text → UrlParts → Result (MentionUri C) MentionUriError
  file_lines path fragment url = do
    _ ← validate_query_params (str "symbol" ∷ str "column" ∷ []) url.query_pairs
    let lines = unwrap_or (1, 1) (to_option (parse_line_range fragment))
    elim (query_param (str "symbol") url.query_pairs) [
      | some name ↦ ok (symbol path name lines)
      | none ↦
          ok (
            selection (some path) lines (parse_column (query_param (str "column") url.query_pairs)))
    ]

  unfoldable pub file_mention : Text → PathStyle → UrlParts → Result (MentionUri C) MentionUriError
  file_mention input path_style url =
      let path = file_path path_style url in
      elim url.fragment [
        | some fragment ↦ file_lines path fragment url
        | none ↦ if ends_with b'/' input then ok (directory path) else ok (file path)
      ]

  -- The URL as the crate reads it.
  abbrev pub parts : C.Url → UrlParts
  parts url = record {
    path = C.path url;
    query_pairs = C.query_pairs url;
    fragment = C.fragment url;
  }

  unfoldable pub by_scheme : Text → PathStyle → C.Url → Result (MentionUri C) MentionUriError
  by_scheme input path_style url =
      if text_beq (C.scheme url) (str "file")
      then file_mention input path_style (parts url)
      else if text_beq (C.scheme url) (str "zed")
      then zed_mention C input (parts url)
      else if text_beq (C.scheme url) (str "http") || text_beq (C.scheme url) (str "https")
      then ok (fetch url)
      else err (unrecognized_scheme (C.scheme url))

  unfoldable pub parse : Text → PathStyle → Result (MentionUri C) MentionUriError
  parse given path_style =
      let input = strip_backticks given in
      if is_bare_path input path_style
      then with_context (str "Invalid absolute path mention URI: ") input
          (parse_absolute_path input)
      else do url ← map_err message (C.parse_url input); by_scheme input path_style url

  unfoldable pub parse_hyperlink : Text → PathStyle → Result (MentionUri C) MentionUriError
  parse_hyperlink input path_style = elim (bare_path_target input path_style) [
    | some target ↦
        with_context (str "Invalid hyperlink path target: ") input
          (parse_hyperlink_path target path_style decode_yes)
    | none ↦ parse input path_style
  ]
