-- ===== src/Server/Interceptor/Confined.antt =====
-- workspace_interceptor.rs: where what is done for the agent can reach.
use mjx_acp_agent.Prelude.{◌≡◌, ◌⊎◌, true, false, ok, string_eq}
use mjx_acp_agent.Prelude.Text.{Text}
use mjx_acp_agent.Core.Frame.{Frame}
use mjx_acp_agent.Workspace.Disk.{FileSystem, FilePath}
use mjx_acp_agent.Workspace.Files.{write_in}
use mjx_acp_agent.Workspace.Files.Jail.{Target}
use mjx_acp_agent.Workspace.Terminals.{Terminals, TerminalEffect, spawns, emits, file_written}
use mjx_acp_agent.Workspace.Connection.{Workspace}

module _ (F : FileSystem) (disk : F.Disk) (ws : Workspace) where
  -- The directory of a process: the connection's own, or what an absolute path leads to, inside a root.
  abbrev pub Reachable : FilePath → Type 0
  Reachable cwd = (cwd ≡ ws.cwd) ⊎ ((d : FilePath) × Target F disk ws.roots d true cwd)

  -- What may be done and told, where the disk is `after` in the end. A file that is said to be written was: the write of
  -- those contents to what that very path leads to made the disk `after`, and the file held before what is said.
  abbrev pub Confined : F.Disk → TerminalEffect → Type 0
  Confined after (spawns launch) = Reachable launch.cwd
  Confined after (emits (file_written path old contents)) =
      (p : FilePath) × Target F disk ws.roots path false p
      × (write_in F disk p contents ≡ (after, ok old))
  Confined after _ = Unit

  -- The disk is as it was, or one file inside a root was written, to which some absolute path leads.
  abbrev pub WrittenInside : F.Disk → Type 0
  WrittenInside after =
      (after ≡ disk)
      ⊎ ((path : FilePath) × (p : FilePath) × (contents : Text) × Target F disk ws.roots path false
            p
          × (after ≡ (write_in F disk p contents).0))
