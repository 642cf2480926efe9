-- ===== src/Workspace/Listing.antt =====
-- crates/mjx-workspace/src/fs.rs: `list_within`. The walk runs on fuel, and every iteration of a loop is one function;
-- an early return is `stop`. `lowercase` is `str::to_lowercase`, of whose tables nothing is used.
pub mod Ends
pub mod Bounds
pub mod Total
use mjx_acp_agent.Workspace.Files.{resolve_within}
use mjx_acp_agent.Prelude.{
  unwrap_or, zero, ◌||◌, ◌||◌, length, suc, Result, ◌&&◌, ◌+◌, any, not, ◌&&◌, ltb, ◌+◌, Option,
  if◌then◌else◌, if◌then◌else◌, List, ℕ, String, Bool, true, false, [], ◌∷◌, none, some, refl, ok,
  err, ◌>>=◌, ◌==◌, string_eq, ◌++◌,
}
use mjx_acp_agent.Prelude.Text.{contains_str, is_empty, Text, str}
use mjx_acp_agent.Workspace.Disk.{strip_path, join, FileSystem, FilePath, Metadata, WorkspaceError}

pub record Entry : Type 0 where
  pub root : FilePath
  pub path : FilePath
  pub is_dir : Bool

pub record Listing : Type 0 where
  pub entries : List Entry
  pub truncated : Bool

abbrev pub skipped_names : List String
skipped_names =
    ".git" ∷ "node_modules" ∷ "target" ∷ "dist" ∷ "build" ∷ ".venv" ∷ "venv" ∷ "__pycache__"
    ∷ ".next" ∷ ".cache" ∷ ".mjx-cache" ∷ []

abbrev pub max_visits : ℕ
max_visits = 20000

abbrev pub max_depth : ℕ
max_depth = 12

unfoldable pub is_skipped : String → Bool
is_skipped name = any (λ skipped. name == skipped) skipped_names

-- What the loops change: the listing, the number of visits, and the queue of directories with their depths.
pub record Walk : Type 0 where
  pub listing : Listing
  pub visits : ℕ
  pub queue : List (FilePath × ℕ)

-- `stop` is `return Ok(listing)`.
pub data Flow : Type 0 where
  go : Walk → Flow
  stop : Listing → Flow

abbrev pub cut_short : Listing → Listing
cut_short listing = record listing { truncated = true }

-- The names of a path, with slashes between them.
unfoldable pub shown_parts : List String → Text
shown_parts [] = []
shown_parts (name ∷ []) = str name
shown_parts (name ∷ next ∷ rest) = str name ++ b'/' ∷ shown_parts (next ∷ rest)

unfoldable pub shown_path : FilePath → Text
shown_path p = if p.rooted then b'/' ∷ shown_parts p.parts else shown_parts p.parts

-- What is done with a directory that was not skipped.
unfoldable pub descend : FilePath → ℕ → Bool → Walk → Walk
descend path depth is_dir w =
    if is_dir
    then if ltb max_depth (depth + 1)
      then record w { listing = cut_short w.listing }
      else record w { queue = w.queue ++ (path, depth + 1) ∷ [] }
    else w

-- An entry that matches is listed, if there is room.
unfoldable pub offer : FilePath → ℕ → FilePath → ℕ → Bool → Bool → Walk → Flow
offer start depth path limit is_dir matches w =
    if matches
    then if not (ltb (length w.listing.entries) limit)
      then stop (cut_short w.listing)
      else go (
          descend path depth is_dir (record w {
            listing = record w.listing {
              entries =
                  w.listing.entries ++ record { root = start; path = path; is_dir = is_dir } ∷ [];
            };
          }))
    else go (descend path depth is_dir w)

module _ (F : FileSystem) (lowercase : Text → Text) where
  unfoldable pub matches_query : Text → FilePath → FilePath → Bool
  matches_query needle start path =
      is_empty needle
      || contains_str needle (lowercase (shown_path (unwrap_or path (strip_path path start))))

  -- An entry of which the metadata is known.
  unfoldable pub inspect :
      F.Disk → FilePath → ℕ → Text → ℕ → String → FilePath → Metadata → Walk → Flow
  inspect disk start limit needle depth name path meta w =
      if meta.is_symlink && F.leads_to_dir disk path
      then go w
      else if meta.is_dir && is_skipped name
      then go w
      else offer start depth path limit meta.is_dir (matches_query needle start path) w

  -- One round of the loop over a directory's entries.
  unfoldable pub visit : F.Disk → FilePath → ℕ → Text → FilePath → ℕ → String → Walk → Flow
  visit disk start limit needle dir depth name w =
      let counted : Walk = record w { visits = w.visits + 1 } in
      if ltb max_visits counted.visits
      then stop (cut_short w.listing)
      else elim (F.symlink_metadata disk (join dir name)) [
        | some meta ↦ inspect disk start limit needle depth name (join dir name) meta counted
        | none ↦ go counted
      ]

  unfoldable pub visit_children :
      F.Disk → FilePath → ℕ → Text → FilePath → ℕ → List String → Walk → Flow
  visit_children disk start limit needle dir depth [] w = go w
  visit_children disk start limit needle dir depth (name ∷ names) w =
      elim (visit disk start limit needle dir depth name w) [
        | go next ↦ visit_children disk start limit needle dir depth names next
        | stop listing ↦ stop listing
      ]

  -- One round of the loop over the queue, on the directory taken from its front.
  unfoldable pub visit_dir : F.Disk → FilePath → ℕ → Text → FilePath → ℕ → Walk → Flow
  visit_dir disk start limit needle dir depth w = elim (F.read_dir disk dir) [
    | some names ↦ visit_children disk start limit needle dir depth names w
    | none ↦ go w
  ]

  -- The loop over the queue; `none` is a lack of fuel.
  unfoldable pub walk : ℕ → F.Disk → FilePath → ℕ → Text → Walk → Option Flow
  walk zero disk start limit needle w = none
  walk (suc fuel) disk start limit needle w = elim w.queue [
    | [] ↦ some (go w)
    | (dir, depth) ∷ rest ↦
        elim (visit_dir disk start limit needle dir depth (record w { queue = rest })) [
          | go next ↦ walk fuel disk start limit needle next
          | stop listing ↦ some (stop listing)
        ]
  ]

  -- One more than the entries that are looked at and the start.
  abbrev pub enough : ℕ
  enough = max_visits + 2

  -- The loop over the starts, each with a queue of its own.
  unfoldable pub walk_all : F.Disk → List FilePath → ℕ → Text → Listing → ℕ → Option Listing
  walk_all disk [] limit needle listing visits = some listing
  walk_all disk (start ∷ starts) limit needle listing visits =
      elim (walk enough disk start limit needle
        (record { listing = listing; visits = visits; queue = (start, 0) ∷ [] })) [
          | some (go w) ↦ walk_all disk starts limit needle w.listing w.visits
          | some (stop listing) ↦ some listing
          | none ↦ none
        ]

  unfoldable pub canonical_roots : F.Disk → List FilePath → List FilePath
  canonical_roots disk [] = []
  canonical_roots disk (root ∷ roots) =
      let rest = canonical_roots disk roots in
      elim (F.canonicalize disk root) [ some found ↦ found ∷ rest | none ↦ rest ]

  unfoldable pub starts_of :
      F.Disk → List FilePath → Option FilePath → Result (List FilePath) WorkspaceError
  starts_of disk roots (some root) = do
    found ← resolve_within F disk roots root true
    ok (found ∷ [])
  starts_of disk roots none = ok (canonical_roots disk roots)

  unfoldable pub list_within :
      F.Disk → List FilePath → Option FilePath → Text → ℕ → Result (Option Listing) WorkspaceError
  list_within disk roots root query limit = do
    starts ← starts_of disk roots root
    ok (walk_all disk starts limit (lowercase query) (record { entries = []; truncated = false }) 0)
