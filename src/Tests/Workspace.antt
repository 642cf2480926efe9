-- ===== src/Tests/Workspace.antt =====
-- The theorems on the workspace crate at concrete inputs.
use mjx_acp_agent.Workspace.Output.Window.{terminal_window, sent, drop, push_all}
use mjx_acp_agent.Prelude.{
  ltb, ◌≤◌, ◌-◌, length, ℕ, List, arith, none, some, ok, err, All, [], ◌∷◌, ◌≡◌, ◌⊎◌, ◌==◌,
  if◌then◌else◌, true, false, refl, string_eq,
}
use mjx_acp_agent.Prelude.Text.{Text, str, contains}
use mjx_acp_agent.Workspace.Output.{new}
use mjx_acp_agent.Prelude.Decimal.{display}
use mjx_acp_agent.Workspace.Terminals.{PtyOutcome, Launch, create, output, no_terminals, started}
use mjx_acp_agent.Workspace.Terminals.Cells.{
  TerminalOp, creates, reads as chunk_read, kills_one, releases, terminal_run,
}
use mjx_acp_agent.Workspace.Terminals.Lifetime.{terminal_lifetime, unless_freed, chunks_of, exit_of}
use mjx_acp_agent.Workspace.Disk.{
  path_starts_with, strip_path, parts_behind, FileSystem, FilePath, WorkspaceError,
}
use mjx_acp_agent.Workspace.Files.{
  slice, write_in, write_text_file, resolve_within, resolved, allowed, make_parent, write_found,
}
use mjx_acp_agent.Workspace.Files.Jail.{IsRefusal}
use mjx_acp_agent.Workspace.Files.Slices.{slice-all}
use mjx_acp_agent.Workspace.Listing.{Listing, list_within}
use mjx_acp_agent.Workspace.Listing.Total.{Offered, list_within-answers}

abbrev reads : List (List ℕ)
reads = (104 ∷ 105 ∷ []) ∷ [] ∷ (33 ∷ 10 ∷ []) ∷ []

terminal_window_example :
    ((push_all (new 3) reads).buffer ≡ drop (length (sent reads) - 3) (sent reads))
    × (length (push_all (new 3) reads).buffer ≤ 3)
    × ((push_all (new 3) reads).truncated ≡ ltb 3 (length (sent reads)))
terminal_window_example = terminal_window 3 reads

-- A disk with one directory, `/w`, and one file in it, `/w/a`, of which only the contents change.
abbrev pub one_file : FileSystem
one_file = record {
  Disk = Text;
  canonicalize =
      λ disk p. elim p.parts [ [] ↦ some p | root ∷ rest ↦ if root == "w" then some p else none ];
  read_to_string = λ disk p. ok disk;
  create_dir_all = λ disk p. (disk, ok tt);
  write = λ disk p contents. (contents, ok tt);
  read_dir = λ disk p. some ("a" ∷ []);
  symlink_metadata = λ disk p. some (record { is_symlink = false; is_dir = false });
  leads_to_dir = λ disk p. false;
}

abbrev pub workspace_root : FilePath
workspace_root = record { rooted = true; parts = "w" ∷ [] }

abbrev pub the_file : FilePath
the_file = record { rooted = true; parts = "w" ∷ "a" ∷ [] }

-- The write is made.
written :
    write_text_file one_file (str "old") (workspace_root ∷ []) the_file (str "new")
    ≡ (str "new", ok (some (str "old")))
unfolding write_text_file resolve_within resolved allowed path_starts_with strip_path parts_behind
    write_in make_parent write_found
written = refl

slice-all_example :
    (slice (str "one\ntwo\n") (some 1) none ≡ str "one\ntwo\n")
    × (slice (str "one\ntwo\n") (some 0) none ≡ str "one\ntwo\n")
unfolding contains
slice-all_example = slice-all (str "one\ntwo\n") refl (λ e. cc)

list_within-answers_example :
    ((e : WorkspaceError) × IsRefusal one_file e
      × (list_within one_file (λ t. t) [] (workspace_root ∷ []) none (str "a") 5 ≡ err e))
    ⊎ ((l : Listing) × (list_within one_file (λ t. t) [] (workspace_root ∷ []) none (str "a") 5
          ≡ ok (some l))
        × (length l.entries ≤ 5)
        × All (Offered one_file (λ t. t) [] (workspace_root ∷ [])) l.entries)
list_within-answers_example =
    list_within-answers one_file (λ t. t) [] (workspace_root ∷ []) none (str "a") 5

abbrev pub works : PtyOutcome
works = record { opened = ok tt; spawned = ok tt; reader = ok tt }

abbrev echo : Launch
echo = record { command = "echo"; args = []; env = []; cwd = workspace_root }

-- Another terminal is created and released, and the first one reads twice.
abbrev later : List TerminalOp
later =
    creates echo none works
    ∷ chunk_read "term-0" (104 ∷ 105 ∷ [])
    ∷ releases "term-1"
    ∷ chunk_read "term-0" (33 ∷ [])
    ∷ kills_one "term-0"
    ∷ []

terminal_lifetime_example :
    output
      (λ bytes. "shown")
      (terminal_run (create no_terminals echo (some 2) works).0 later)
      "term-0"
    ≡ unless_freed false "term-0" ("shown", true, none)
unfolding terminal_run create started display chunks_of exit_of
terminal_lifetime_example =
    terminal_lifetime (λ bytes. "shown") [] later echo (some 2) works "term-0" (ground arith) refl
