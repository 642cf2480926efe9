-- ===== src/Workspace/Connection.antt =====
-- crates/mjx-workspace/src/lib.rs: `Workspace`, one connection's view of the disk and its terminals. What it does besides
-- is a list of effects, the events for the browser among them.
use mjx_acp_agent.Prelude.{
  ℕ, String, Option, none, some, List, [], ◌∷◌, Bool, true, Result, ok, err, ◌>>=◌,
}
use mjx_acp_agent.Prelude.Text.{Text}
use mjx_acp_agent.Workspace.Disk.{
  FileSystem, FilePath, WorkspaceError, outside_workspace, not_absolute, not_found, io, terminal,
  no_such_terminal,
}
use mjx_acp_agent.Workspace.Files
use mjx_acp_agent.Workspace.Terminals.{
  Terminals, Launch, PtyOutcome, TerminalEffect, emits, file_written, ExitStatus, no_terminals,
}
use mjx_acp_agent.Workspace.Terminals
use Prim.Native.String.{◌++◌ as str_append}

pub record Workspace : Type 0 where
  pub roots : List FilePath
  pub cwd : FilePath
  pub terminals : Terminals

unfoldable pub new : List FilePath → FilePath → Workspace
new roots cwd = record { roots = roots; cwd = cwd; terminals = no_terminals }

-- How an error is displayed, given how a path is.
unfoldable pub error_text : (FilePath → String) → WorkspaceError → String
error_text shown (outside_workspace p) = str_append (shown p) " is outside the workspace"
error_text shown (not_absolute p) = str_append (shown p) " is not an absolute path"
error_text shown (not_found p) = str_append (shown p) " does not exist"
error_text shown (io p detail) = str_append (shown p) (str_append ": " detail)
error_text shown (terminal detail) = detail
error_text shown (no_such_terminal id) = str_append "no such terminal: " id

-- What `create_terminal` is asked for.
pub record TerminalRequest : Type 0 where
  pub command : String
  pub args : List String
  pub env : List (String × String)
  pub cwd : Option FilePath
  pub output_byte_limit : Option ℕ

module _ (F : FileSystem) where
  unfoldable pub read_text_file :
      F.Disk → Workspace → FilePath → Option ℕ → Option ℕ → Result Text WorkspaceError
  read_text_file disk ws path line limit = Files.read_text_file F disk ws.roots path line limit

  -- The change is told once it is made.
  unfoldable pub told_write :
      FilePath → Text → Result (Option Text) WorkspaceError → List TerminalEffect
  told_write path contents (ok old) = emits (file_written path old contents) ∷ []
  told_write path contents (err e) = []

  unfoldable pub write_text_file :
      F.Disk
      → Workspace
      → FilePath
      → Text
      → F.Disk × Result (Unit {0}) WorkspaceError × List TerminalEffect
  write_text_file disk ws path contents =
      let (disk', written) = Files.write_text_file F disk ws.roots path contents in
      (disk', written >>= (λ _. ok tt), told_write path contents written)

  unfoldable pub directory_of :
      F.Disk → Workspace → Option FilePath → Result FilePath WorkspaceError
  directory_of disk ws none = ok ws.cwd
  directory_of disk ws (some dir) = Files.resolve_within F disk ws.roots dir true

  unfoldable pub create_terminal :
      F.Disk
      → Workspace
      → TerminalRequest
      → PtyOutcome
      → Workspace × Result String WorkspaceError × List TerminalEffect
  create_terminal disk ws r pty = elim (directory_of disk ws r.cwd) [
    | err e ↦ (ws, err e, [])
    | ok dir ↦
        let launch : Launch = record {
          command = r.command;
          args = r.args;
          env = r.env;
          cwd = dir;
        } in
        let (ts, answer, told) = Terminals.create ws.terminals launch r.output_byte_limit pty in
        (record ws { terminals = ts }, answer, told)
  ]

abbrev pub terminal_output :
    (List ℕ → String)
    → Workspace
    → String
    → Result (String × Bool × Option ExitStatus) WorkspaceError
terminal_output from_utf8_lossy ws id = Terminals.output from_utf8_lossy ws.terminals id

abbrev pub wait_for_terminal_exit :
    Workspace → String → Bool → Option (Result ExitStatus WorkspaceError)
wait_for_terminal_exit ws id abandoned = Terminals.wait_for_exit ws.terminals id abandoned

unfoldable pub kill_terminal :
    Workspace → String → Workspace × Result (Unit {0}) WorkspaceError × List TerminalEffect
kill_terminal ws id =
    let (ts, answer, told) = Terminals.kill ws.terminals id in
    (record ws { terminals = ts }, answer, told)

unfoldable pub release_terminal :
    Workspace → String → Workspace × Result (Unit {0}) WorkspaceError × List TerminalEffect
release_terminal ws id =
    let (ts, told) = Terminals.release ws.terminals id in
    (record ws { terminals = ts }, ok tt, told)

-- Also what dropping a workspace does.
unfoldable pub release_all_terminals : Workspace → Workspace × List TerminalEffect
release_all_terminals ws =
    let (ts, told) = Terminals.release_all ws.terminals in (record ws { terminals = ts }, told)
