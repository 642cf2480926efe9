-- ===== src/Workspace/Files.antt =====
-- crates/mjx-workspace/src/fs.rs: the jail, and reading and writing of text files within it.
pub mod Slices
pub mod Jail
use mjx_acp_agent.Prelude.{
  not, zero, ◌&&◌, ◌-◌, ◌&&◌, ◌-◌, length, ◌++◌, any, map_err, ◌++◌, unwrap_or, nat_beq, to_option,
  ltb, suc, ok_or, List, ℕ, if◌then◌else◌, Bool, Result, Option, true, false, [], ◌∷◌, none, some,
  refl, ok, err, ◌>>=◌,
}
use mjx_acp_agent.Prelude.Text.{is_empty, ends_with, starts_with, Text}
use mjx_acp_agent.Workspace.Disk.{
  join, path_starts_with, file_name, parent, FileSystem, FilePath, WorkspaceError,
  outside_workspace, not_absolute, not_found, io,
}

-- `str::lines`: a carriage return before a line feed is part of the line's end.
unfoldable pub without_cr : Text → Text
without_cr [] = []
without_cr (c ∷ s) =
    let rest = without_cr s in
    if nat_beq c b'\r' && starts_with (b'\n' ∷ []) s then rest else c ∷ rest

abbrev pub cons_line : ℕ → List Text → List Text
cons_line c [] = (c ∷ []) ∷ []
cons_line c (line ∷ rest) = (c ∷ line) ∷ rest

unfoldable pub split_lines : Text → List Text
split_lines [] = []
split_lines (c ∷ s) =
    let rest = split_lines s in if nat_beq c b'\n' then [] ∷ rest else cons_line c rest

unfoldable pub lines : Text → List Text
lines s = split_lines (without_cr s)

-- `join("\n")`
unfoldable pub join_lines : List Text → Text
join_lines [] = []
join_lines (line ∷ []) = line
join_lines (line ∷ next ∷ rest) = line ++ b'\n' ∷ join_lines (next ∷ rest)

abbrev pub skip_lines : ℕ → List Text → List Text
skip_lines zero ls = ls
skip_lines (suc n) [] = []
skip_lines (suc n) (l ∷ ls) = skip_lines n ls

-- `Vec::truncate`
abbrev pub truncate : ℕ → List Text → List Text
truncate zero ls = []
truncate (suc n) [] = []
truncate (suc n) (l ∷ ls) = l ∷ truncate n ls

abbrev pub limited : Option ℕ → List Text → List Text
limited none ls = ls
limited (some limit) ls = truncate limit ls

-- `limit.is_none_or(|l| selected.len() < l)`
abbrev pub below_limit : Option ℕ → List Text → Bool
below_limit none ls = true
below_limit (some limit) ls = ltb (length ls) limit

-- The slice of a file's contents, once `line` or `limit` is given.
unfoldable pub slice : Text → Option ℕ → Option ℕ → Text
slice contents line limit =
    let selected = limited limit (skip_lines (unwrap_or 1 line - 1) (lines contents)) in
    let out = join_lines selected in
    if ends_with b'\n' contents && not (is_empty out) && below_limit limit selected
    then out ++ b'\n' ∷ []
    else out

unfoldable pub selected_text : Text → Option ℕ → Option ℕ → Text
selected_text contents none none = contents
selected_text contents line limit = slice contents line limit

module _ (F : FileSystem) where
  -- The path that is checked: the file itself, or its directory if it may be missing.
  unfoldable pub resolved : F.Disk → FilePath → Bool → Result FilePath WorkspaceError
  resolved disk path true = ok_or (not_found path) (F.canonicalize disk path)
  resolved disk path false = do
    parent ← ok_or (not_absolute path) (parent path)
    found ← ok_or (not_found parent) (F.canonicalize disk parent)
    ok (elim (file_name path) [ some name ↦ join found name | none ↦ found ])

  unfoldable pub allowed : F.Disk → List FilePath → FilePath → Bool
  allowed disk roots path =
      any
        (λ root. elim (F.canonicalize disk root) [
          | some root ↦ path_starts_with path root
          | none ↦ false
        ])
        roots

  unfoldable pub resolve_within :
      F.Disk → List FilePath → FilePath → Bool → Result FilePath WorkspaceError
  resolve_within disk roots path must_exist =
      if path.rooted
      then (resolved disk path must_exist >>= λ found.
          if allowed disk roots found then ok found else err (outside_workspace found))
      else err (not_absolute path)

  unfoldable pub read_text_file :
      F.Disk → List FilePath → FilePath → Option ℕ → Option ℕ → Result Text WorkspaceError
  read_text_file disk roots path line limit = do
    found ← resolve_within disk roots path true
    contents ← map_err (io found) (F.read_to_string disk found)
    ok (selected_text contents line limit)

  -- `create_dir_all(parent)`, where there is a parent.
  unfoldable pub make_parent : F.Disk → FilePath → F.Disk × Result (Unit {0}) WorkspaceError
  make_parent disk path = elim (parent path) [
    | some dir ↦ ((F.create_dir_all disk dir).0, map_err (io dir) (F.create_dir_all disk dir).1)
    | none ↦ (disk, ok tt)
  ]

  -- What is written once the directory is there.
  unfoldable pub write_found :
      F.Disk → FilePath → Text → Option Text → F.Disk × Result (Option Text) WorkspaceError
  write_found disk path contents previous =
      let (disk, done) = F.write disk path contents in
      (disk, map_err (io path) done >>= λ _. ok previous)

  unfoldable pub write_in : F.Disk → FilePath → Text → F.Disk × Result (Option Text) WorkspaceError
  write_in disk path contents =
      let previous = to_option (F.read_to_string disk path) in
      elim (make_parent disk path).1 [
        | ok _ ↦ write_found (make_parent disk path).0 path contents previous
        | err e ↦ ((make_parent disk path).0, err e)
      ]

  unfoldable pub write_text_file :
      F.Disk → List FilePath → FilePath → Text → F.Disk × Result (Option Text) WorkspaceError
  write_text_file disk roots path contents = elim (resolve_within disk roots path false) [
    | ok found ↦ write_in disk found contents
    | err e ↦ (disk, err e)
  ]
