-- ===== src/Thread/Mention/Lines.antt =====
-- mention.rs: `parse_line_range`, `line_range_suffix` and the fragments of `to_uri`. The additions are on a `u32`,
-- which wraps in a release build.
use Prim.Native.Nat.{◌^◌, ◌^◌, ◌%◌}
use mjx_acp_agent.Prelude.{
  ok, ◌++◌, ◌+◌, nat_beq, ◌+◌, Option, ◌++◌, unwrap_or, ℕ, if◌then◌else◌, Result, ◌∷◌, none, some,
  zero, suc, ◌>>=◌,
}
use mjx_acp_agent.Prelude.Text.{strip_prefix, parse_u32, split_once, show_u32, Text, str}
use mjx_acp_agent.Thread.Mention.{MentionUriError, LineRange, context}

-- `checked_sub(1)`
abbrev pub checked_pred : ℕ → Option ℕ
checked_pred zero = none
checked_pred (suc n) = some n

abbrev pub u32_suc : ℕ → ℕ
u32_suc n = (n + 1) % 2 ^ 32

unfoldable pub line_number : Text → Text → Result ℕ MentionUriError
line_number failed written = do
  n ← context failed (parse_u32 written)
  context (str "Line numbers should be 1-based") (checked_pred n)

unfoldable pub range_ends : Text → Text × Text
range_ends range = elim (split_once b':' range) [
  | some ends ↦ ends
  | none ↦ elim (split_once b'-' range) [
    | some ends ↦ (ends.0, unwrap_or ends.1 (strip_prefix (str "L") ends.1))
    | none ↦ (range, range)
  ]
]

unfoldable pub parse_line_range : Text → Result LineRange MentionUriError
parse_line_range fragment = do
  let ends = range_ends (unwrap_or fragment (strip_prefix (str "L") fragment))
  start_line ← line_number (str "Parsing line range start") ends.0
  end_line ← line_number (str "Parsing line range end") ends.1
  ok (start_line, end_line)

unfoldable pub line_range_suffix : LineRange → Text
line_range_suffix lines =
    let start = u32_suc lines.0 in
    let end = u32_suc lines.1 in
    if nat_beq start end
    then b':' ∷ show_u32 start
    else b':' ∷ show_u32 start ++ b'-' ∷ show_u32 end

-- `L{}:{}` in `to_uri`.
unfoldable pub line_fragment : LineRange → Text
line_fragment lines = b'L' ∷ show_u32 (u32_suc lines.0) ++ b':' ∷ show_u32 (u32_suc lines.1)
