-- ===== src/Thread/Paths.antt =====
-- crates/mjx-acp-thread/src/paths.rs: spellings of paths. A `PathBuf` is its text.
use mjx_acp_agent.Prelude.{
  ◌||◌, ◌||◌, ◌&&◌, ◌&&◌, and_then, ℕ, nat_beq, Bool, Option, true, false, ◌∷◌, none, some,
}
use mjx_acp_agent.Prelude.Text.{parse_u32, rsplit_once, is_ascii_alphabetic, str, starts_with, Text}

pub data PathStyle : Type 0 where
  unix windows : PathStyle

abbrev pub is_windows : PathStyle → Bool
is_windows windows = true
is_windows unix = false

unfoldable pub has_drive_prefix : Text → Bool
has_drive_prefix (drive ∷ colon ∷ s) = nat_beq colon b':' && is_ascii_alphabetic drive
has_drive_prefix _ = false

unfoldable pub is_absolute : Text → PathStyle → Bool
unfolding has_drive_prefix
is_absolute path unix = starts_with (str "/") path
is_absolute path windows =
    starts_with (str "/") path || starts_with (str "\\") path || has_drive_prefix path

pub record PathWithPosition : Type 0 where
  pub path : Text
  pub row : Option ℕ
  pub column : Option ℕ

-- A number behind the last colon, and what is before it.
unfoldable pub position : Text → Option (Text × ℕ)
position input =
    and_then (rsplit_once b':' input) λ cut. and_then (parse_u32 cut.1) λ last. some (cut.0, last)

-- One number found. A second one before it makes the first a column.
abbrev pub one_found : Text → ℕ → Option (Text × ℕ) → PathWithPosition
one_found head last none = record { path = head; row = some last; column = none }
one_found head last (some (rest, middle)) = record {
  path = rest;
  row = some middle;
  column = some last;
}

abbrev pub found : Text → Option (Text × ℕ) → PathWithPosition
found input none = record { path = input; row = none; column = none }
found input (some (head, last)) = one_found head last (position head)

unfoldable pub parse_str : Text → PathWithPosition
parse_str input = found input (position input)
