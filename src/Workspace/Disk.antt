-- ===== src/Workspace/Disk.antt =====
-- Paths by their components, the file system as a parameter, and `WorkspaceError` of crates/mjx-workspace/src/lib.rs.
use mjx_acp_agent.Prelude.{
  and_then, nat_beq, Result, if◌then◌else◌, get_last?, ◌++◌, Option, List, ℤ, ◌++◌, Bool, true,
  false, [], ◌∷◌, none, some, String, string_eq, ◌==◌, negsuc,
}
use mjx_acp_agent.Prelude.Text.{Text}

-- `rooted` is whether the path begins with `/`; `..` is a part like any other, and `.` is none.
pub record FilePath : Type 0 where
  pub rooted : Bool
  pub parts : List String

-- `Path::parent`, which the root and the empty path do not have.
abbrev pub init : List String → List String
init [] = []
init (x ∷ []) = []
init (x ∷ y ∷ xs) = x ∷ init (y ∷ xs)

abbrev pub parent : FilePath → Option FilePath
parent p = elim p.parts [ [] ↦ none | x ∷ xs ↦ some (record p { parts = init (x ∷ xs) }) ]

-- `Path::file_name`
abbrev pub file_name : FilePath → Option String
file_name p = elim (get_last? p.parts) [
  | some name ↦ if name == ".." then none else some name
  | none ↦ none
]

-- `path.join(name)` for one name.
abbrev pub join : FilePath → String → FilePath
join p name = record p { parts = p.parts ++ name ∷ [] }

-- The parts behind a prefix.
unfoldable pub parts_behind : List String → List String → Option (List String)
parts_behind [] xs = some xs
parts_behind (p ∷ ps) [] = none
parts_behind (p ∷ ps) (x ∷ xs) = let rest = parts_behind ps xs in if x == p then rest else none

-- `Path::strip_prefix`
unfoldable pub strip_path : FilePath → FilePath → Option FilePath
strip_path path base =
    if nat_beq (if path.rooted then 1 else 0) (if base.rooted then 1 else 0)
    then (and_then (parts_behind base.parts path.parts)
        λ rest. some (record { rooted = false; parts = rest }))
    else none

-- `Path::starts_with`
unfoldable pub path_starts_with : FilePath → FilePath → Bool
path_starts_with path base = elim (strip_path path base) [ some rest ↦ true | none ↦ false ]

-- What `symlink_metadata` says of an entry, without following a link.
pub record Metadata : Type 0 where
  pub is_symlink : Bool
  pub is_dir : Bool

-- The file system. `read_dir` gives the names of the entries that can be read; `leads_to_dir` is `Path::is_dir`, which
-- follows links; an error is what the system says of it.
pub record FileSystem : Type 1 where
  pub Disk : Type 0
  pub canonicalize : Disk → FilePath → Option FilePath
  pub read_to_string : Disk → FilePath → Result Text String
  pub create_dir_all : Disk → FilePath → Disk × Result (Unit {0}) String
  pub write : Disk → FilePath → Text → Disk × Result (Unit {0}) String
  pub read_dir : Disk → FilePath → Option (List String)
  pub symlink_metadata : Disk → FilePath → Option Metadata
  pub leads_to_dir : Disk → FilePath → Bool

pub data WorkspaceError : Type 0 where
  outside_workspace : FilePath → WorkspaceError
  not_absolute : FilePath → WorkspaceError
  not_found : FilePath → WorkspaceError
  io : FilePath → String → WorkspaceError
  terminal : String → WorkspaceError
  no_such_terminal : String → WorkspaceError

unfoldable pub code : WorkspaceError → ℤ
code (not_found p) = negsuc 32001
code (no_such_terminal id) = negsuc 32001
code (outside_workspace p) = negsuc 32601
code (not_absolute p) = negsuc 32601
code (io p message) = negsuc 32602
code (terminal message) = negsuc 32602
