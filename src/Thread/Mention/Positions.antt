-- ===== src/Thread/Mention/Positions.antt =====
-- Positions behind a path, and line ranges, read back as they are written.
use mjx_acp_agent.Thread.Mention.Targets.{absolute_path_mention}
use mjx_acp_agent.Prelude.Text.Numbers.{parse_u32-show_u32, contains-show_u32}
use mjx_acp_agent.Prelude.Text.Cuts.{split_once-append, rsplit_once-append}
use Prim.Native.Nat.{suc, ◌^◌}
use mjx_acp_agent.Thread.Mention.Lines.{
  line_range_suffix, u32_suc, range_ends, parse_line_range, line_fragment, line_number,
}
use mjx_acp_agent.Prelude.{
  err, nat_beq, zero, if◌then◌else◌, and_then, Result, ◌-◌, Option, arith, ◌++◌, ◌≡◌, ◌++◌, ◌≡◌,
  ◌+◌, ◌<◌, ◌<◌, ◌+◌, ℕ, false, ◌∷◌, none, some, refl, ok,
}
use mjx_acp_agent.Prelude.Text.{show_u32, contains, Text, str}
use mjx_acp_agent.Thread.Paths.{parse_str, position}
use mjx_acp_agent.Thread.Mention.{
  message, MentionUriError, MentionUri, selection, Crates, LineRange,
}

pub u32_suc-fits : (n : ℕ) → n + 1 < 2 ^ 32 → u32_suc n ≡ suc n
u32_suc-fits n h = ground arith

-- A line number that is printed is read as the line.
line_number-show_u32 :
    (failed : Text) (n : ℕ) → n + 1 < 2 ^ 32 → line_number failed (show_u32 (u32_suc n)) ≡ ok n
unfolding line_number
line_number-show_u32 failed n h = rw (u32_suc-fits n h, parse_u32-show_u32 (suc n) (omega arith))

range_ends-append : (a b : Text) → contains b':' a ≡ false → range_ends (a ++ b':' ∷ b) ≡ (a, b)
unfolding range_ends
range_ends-append a b lacks = rw (split_once-append b':' a b lacks, range_ends)

parse_two_lines :
    (a b : Text) (s e : ℕ)
    → contains b':' a ≡ false
    → line_number (str "Parsing line range start") a ≡ ok s
    → line_number (str "Parsing line range end") b ≡ ok e
    → parse_line_range (b'L' ∷ a ++ b':' ∷ b) ≡ ok (s, e)
unfolding parse_line_range
parse_two_lines a b s e lacks hs he = rw (range_ends-append a b lacks, hs, he)

-- The fragment of a mention's URL is read back as its line range.
pub parse_line_range-line_fragment :
    (lines : LineRange)
    → lines.0 + 1 < 2 ^ 32
    → lines.1 + 1 < 2 ^ 32
    → parse_line_range (line_fragment lines) ≡ ok lines
unfolding line_fragment
parse_line_range-line_fragment lines hs he =
    parse_two_lines (show_u32 (u32_suc lines.0)) (show_u32 (u32_suc lines.1)) lines.0 lines.1
      (contains-show_u32 (u32_suc lines.0) b':' refl) (line_number-show_u32 _ lines.0 hs)
      (line_number-show_u32 _ lines.1 he)

position-append : (p : Text) (n : ℕ) → n < 2 ^ 32 → position (p ++ b':' ∷ show_u32 n) ≡ some (p, n)
unfolding position
position-append p n h =
    rw (
      rsplit_once-append b':' p (show_u32 n) (contains-show_u32 n b':' refl),
      parse_u32-show_u32 n h,
    )

-- A row and a column behind any path are read back.
pub parse_str_column :
    (p : Text) (row column : ℕ)
    → row < 2 ^ 32
    → column < 2 ^ 32
    → parse_str ((p ++ b':' ∷ show_u32 row) ++ b':' ∷ show_u32 column)
      ≡ record { path = p; row = some row; column = some column }
unfolding parse_str
parse_str_column p row column hr hc =
    rw (position-append (p ++ b':' ∷ show_u32 row) column hc, position-append p row hr)

-- A row behind a path that has none of its own is read back.
pub parse_str_row :
    (p : Text) (row : ℕ)
    → row < 2 ^ 32
    → position p ≡ none
    → parse_str (p ++ b':' ∷ show_u32 row) ≡ record { path = p; row = some row; column = none }
unfolding parse_str
parse_str_row p row hr bare = rw (position-append p row hr, bare)

-- The mention of row `row` of a file: rows are written from 1 on and kept from 0 on.
pub at_row : {C : Crates} → Text → ℕ → Option ℕ → Result (MentionUri C) MentionUriError
at_row p row column =
    if nat_beq row 0
    then err (message (str "Line numbers should be 1-based"))
    else ok (selection (some p) (row - 1, row - 1) column)

mention_at :
    {C : Crates} (p input : Text) (row : ℕ) (column : Option ℕ)
    → parse_str input ≡ record { path = p; row = some row; column = column }
    → absolute_path_mention {C = C} input none ≡ at_row p row (and_then column λ c. some (c - 1))
unfolding absolute_path_mention at_row
mention_at p input zero column e = rw e
mention_at p input (suc row) column e = rw e (ground arith)

-- A path with no position of its own and a row behind it, alone or with a column, is mentioned at that row, from 0 on,
-- and at that column, and refused if the row is 0.
pub absolute_path_mention-position :
    {C : Crates} (p : Text) (row column : ℕ)
    → row < 2 ^ 32
    → column < 2 ^ 32
    → position p ≡ none
    → (absolute_path_mention {C = C} (p ++ b':' ∷ show_u32 row) none ≡ at_row p row none)
      × (absolute_path_mention {C = C} ((p ++ b':' ∷ show_u32 row) ++ b':' ∷ show_u32 column) none
          ≡ at_row p row (some (column - 1)))
absolute_path_mention-position p row column hr hc bare = (
  mention_at p _ row none (parse_str_row p row hr bare),
  mention_at p _ row (some column) (parse_str_column p row column hr hc),
)

line_range_suffix-one :
    (line : ℕ) → line + 1 < 2 ^ 32 → line_range_suffix (line, line) ≡ b':' ∷ show_u32 (suc line)
unfolding line_range_suffix
line_range_suffix-one line h = rw (u32_suc-fits line h) (ground arith)

-- The suffix of one line, behind a path that has no position of its own, is read as that line.
pub absolute_path_mention-line_range_suffix :
    {C : Crates} (p : Text) (line : ℕ)
    → line + 1 < 2 ^ 32
    → position p ≡ none
    → absolute_path_mention {C = C} (p ++ line_range_suffix (line, line)) none
      ≡ ok (selection (some p) (line, line) none)
unfolding at_row
absolute_path_mention-line_range_suffix p line h bare =
    rw
      (
        line_range_suffix-one line h,
        mention_at p _ (suc line) none (parse_str_row p (suc line) (omega arith) bare),
      )
      (ground arith)
