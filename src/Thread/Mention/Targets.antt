-- ===== src/Thread/Mention/Targets.antt =====
-- mention.rs: bare paths as mentions, with a fragment or a position, and hyperlinks to them.
use mjx_acp_agent.Thread.Mention.Native.{native_path}
use mjx_acp_agent.Thread.Mention.Lines.{parse_line_range, checked_pred}
use mjx_acp_agent.Thread.Mention.Escapes.{decode_path_escapes}
use mjx_acp_agent.Prelude.{
  not, ◌&&◌, ◌-◌, ◌-◌, ◌&&◌, to_option, if◌then◌else◌, and_then, unwrap_or, Result, Bool, Option,
  none, some, ok, ◌>>=◌,
}
use mjx_acp_agent.Prelude.Text.{contains_str, strip_suffix, strip_prefix, split_once, Text, str}
use mjx_acp_agent.Thread.Paths.{parse_str, is_windows, is_absolute, PathWithPosition, PathStyle}
use mjx_acp_agent.Thread.Mention.{Crates, MentionUriError, MentionUri, selection, file, context}

unfoldable pub strip_backticks : Text → Text
strip_backticks input =
    unwrap_or input (and_then (strip_prefix (str "`") input) (strip_suffix b'`'))

unfoldable pub is_bare_path : Text → PathStyle → Bool
is_bare_path input path_style = is_absolute input path_style && not (contains_str (str "://") input)

unfoldable pub bare_path_target : Text → PathStyle → Option Text
bare_path_target input path_style =
    let input = strip_backticks input in if is_bare_path input path_style then some input else none

unfoldable pub split_path_fragment : Text → Text × Option Text
split_path_fragment input = elim (split_once b'#' input) [
  | some cut ↦ (cut.0, some cut.1)
  | none ↦ (input, none)
]

-- `DecodePercentEscapes`
pub data DecodePercentEscapes : Type 0 where
  decode_yes decode_no : DecodePercentEscapes

unfoldable pub normalize_path_mention : Text → PathStyle → DecodePercentEscapes → Text
normalize_path_mention input path_style decode_escapes =
    let decoded : Text = elim decode_escapes [
      | decode_yes ↦ (decode_path_escapes input).0
      | decode_no ↦ input
    ] in
    if is_windows path_style then native_path decoded else decoded

module _ {C : Crates} where
  at_position : PathWithPosition → Result (MentionUri C) MentionUriError
  at_position p = elim p.row [
    | some row ↦ do
      line ← context (str "Line numbers should be 1-based") (checked_pred row)
      ok (selection (some p.path) (line, line) (and_then p.column λ column. some (column - 1)))
    | none ↦ ok (file p.path)
  ]

  unfoldable pub absolute_path_mention : Text → Option Text → Result (MentionUri C) MentionUriError
  unfolding at_position
  absolute_path_mention path_input fragment =
      elim (and_then fragment λ f. to_option (parse_line_range f)) [
        | some lines ↦ ok (selection (some path_input) lines none)
        | none ↦ at_position (parse_str path_input)
      ]

  unfoldable pub parse_absolute_path : Text → Result (MentionUri C) MentionUriError
  parse_absolute_path input =
      let cut = split_path_fragment input in absolute_path_mention cut.0 cut.1

  unfoldable pub parse_hyperlink_path :
      Text → PathStyle → DecodePercentEscapes → Result (MentionUri C) MentionUriError
  parse_hyperlink_path input path_style decode_escapes =
      let cut = split_path_fragment input in
      absolute_path_mention (normalize_path_mention cut.0 path_style decode_escapes) cut.1

  unfoldable pub parse_hyperlink_literal : Text → PathStyle → Option (MentionUri C)
  parse_hyperlink_literal input path_style = and_then (bare_path_target input path_style) λ target.
      if (decode_path_escapes (split_path_fragment target).0).1
      then to_option (parse_hyperlink_path target path_style decode_no)
      else none
