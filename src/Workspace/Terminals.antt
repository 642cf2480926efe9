-- ===== src/Workspace/Terminals.antt =====
-- crates/mjx-workspace/src/terminal.rs: `Terminals`. What a terminal shares with the threads that read and wait for its
-- process is a cell of its id; the threads are the operations `terminal_reads` and `terminal_exits`. Whether a process
-- starts is what the environment says.
pub mod Cells
pub mod Lifetime
use mjx_acp_agent.Prelude.{
  ℕ, ◌+◌, ℤ, pos, String, Option, none, some, List, [], ◌∷◌, ◌++◌, Bool, true, false, Result, ok,
  err, ◌>>=◌, map_err, ok_or, unwrap_or, if◌then◌else◌, string_eq, ltb,
}
use Prim.Native.Nat.{◌^◌, ◌%◌, max}
use mjx_acp_agent.Prelude.Map.{Map, lookup, insert, remove}
use mjx_acp_agent.Prelude.Decimal.{display}
use mjx_acp_agent.Prelude.Text.{Text}
use mjx_acp_agent.Workspace.Disk.{FilePath, WorkspaceError, terminal, no_such_terminal}
use mjx_acp_agent.Workspace.Output.{Output, push, default_output_limit}
use mjx_acp_agent.Workspace.Output
use Prim.Native.String.{◌++◌ as str_append}

pub record ExitStatus : Type 0 where
  pub exit_code : Option ℤ
  pub signal : Option String

-- `WorkspaceEvent`; a chunk is bytes.
pub data WorkspaceEvent : Type 0 where
  terminal_created : String → String → List String → FilePath → WorkspaceEvent
  terminal_output : String → List ℕ → Bool → WorkspaceEvent
  terminal_exit : String → ExitStatus → WorkspaceEvent
  file_written : FilePath → Option Text → Text → WorkspaceEvent

-- What the threads share with a terminal: its output and its exit, once it has one.
pub record Cell : Type 0 where
  pub output : Output
  pub exit : Option ExitStatus

-- `listed` is the map of terminals, with whether each has a killer left; `next_id` is a `u64`.
pub record Terminals : Type 0 where
  pub listed : Map String Bool
  pub cells : Map String Cell
  pub next_id : ℕ

-- The process, as `CommandBuilder` is told of it.
pub record Launch : Type 0 where
  pub command : String
  pub args : List String
  pub env : List (String × String)
  pub cwd : FilePath

pub data TerminalEffect : Type 0 where
  spawns : Launch → TerminalEffect
  kills : String → TerminalEffect
  emits : WorkspaceEvent → TerminalEffect

-- What the system says of the terminal, of the process, and of the reader.
pub record PtyOutcome : Type 0 where
  pub opened : Result (Unit {0}) String
  pub spawned : Result (Unit {0}) String
  pub reader : Result (Unit {0}) String

abbrev pub no_terminals : Terminals
no_terminals = record { listed = []; cells = []; next_id = 0 }

abbrev pub terminal_name : ℕ → String
terminal_name n = str_append "term-" (display n)

abbrev pub counted : Terminals → Terminals
counted ts = record ts { next_id = (ts.next_id + 1) % 2 ^ 64 }

-- The fallible steps of `create`, up to the reader.
unfoldable pub started : String → PtyOutcome → Result (Unit {0}) WorkspaceError
started command pty = do
  _ ← map_err terminal pty.opened
  _ ←
      map_err
        (λ e. terminal (str_append "could not run `" (str_append command (str_append "`: " e))))
        pty.spawned
  map_err terminal pty.reader

-- A process that was spawned before the reader failed is left to itself.
unfoldable pub attempted : Launch → PtyOutcome → List TerminalEffect
attempted launch pty = elim pty.opened [
  | err e ↦ []
  | ok _ ↦ elim pty.spawned [ err e ↦ [] | ok _ ↦ spawns launch ∷ [] ]
]

-- `output_byte_limit.unwrap_or(DEFAULT_OUTPUT_LIMIT).max(1)`
abbrev pub budget : Option ℕ → ℕ
budget limit = max (unwrap_or default_output_limit limit) 1

unfoldable pub list_terminal : Terminals → Option ℕ → Terminals
list_terminal ts limit = record (counted ts) {
  listed = insert (terminal_name ts.next_id) true ts.listed;
  cells =
      insert (terminal_name ts.next_id) (record { output = Output.new (budget limit); exit = none })
        ts.cells;
}

unfoldable pub create :
    Terminals
    → Launch
    → Option ℕ
    → PtyOutcome
    → Terminals × Result String WorkspaceError × List TerminalEffect
create ts launch limit pty =
    let id = terminal_name ts.next_id in
    elim (started launch.command pty) [
      | err e ↦ (counted ts, err e, attempted launch pty)
      | ok _ ↦ (
        list_terminal ts limit,
        ok id,
        spawns launch ∷ emits (terminal_created id launch.command launch.args launch.cwd) ∷ [],
      )
    ]

-- One round of the reading thread; it goes on after a release, which does not stop it.
unfoldable pub terminal_reads : Terminals → String → List ℕ → Terminals × List TerminalEffect
terminal_reads ts id chunk = elim (lookup id ts.cells) [
  | none ↦ (ts, [])
  | some cell ↦
      let output = push cell.output chunk in
      (
        record ts { cells = insert id (record cell { output = output }) ts.cells },
        emits (terminal_output id chunk output.truncated) ∷ [],
      )
]

-- The waiting thread's end.
unfoldable pub terminal_exits : Terminals → String → ExitStatus → Terminals × List TerminalEffect
terminal_exits ts id status = elim (lookup id ts.cells) [
  | none ↦ (ts, [])
  | some cell ↦ (
    record ts { cells = insert id (record cell { exit = some status }) ts.cells },
    emits (terminal_exit id status) ∷ [],
  )
]

-- `get`, and what the terminal's cell holds.
unfoldable pub get : Terminals → String → Result Cell WorkspaceError
get ts id = do
  _ ← ok_or (no_such_terminal id) (lookup id ts.listed)
  ok_or (no_such_terminal id) (lookup id ts.cells)

unfoldable pub output :
    (List ℕ → String)
    → Terminals
    → String
    → Result (String × Bool × Option ExitStatus) WorkspaceError
output from_utf8_lossy ts id = do
  cell ← get ts id
  ok (Output.shown from_utf8_lossy cell.output, cell.output.truncated, cell.exit)

-- `none` is a wait that goes on; `abandoned` is whether the waiting thread went away without reporting.
unfoldable pub wait_for_exit : Terminals → String → Bool → Option (Result ExitStatus WorkspaceError)
wait_for_exit ts id abandoned = elim (get ts id) [
  | err e ↦ some (err e)
  | ok cell ↦ elim cell.exit [
    | some status ↦ some (ok status)
    | none ↦ if abandoned then some (ok (record { exit_code = none; signal = none })) else none
  ]
]

-- `killer.take()`
unfoldable pub kill :
    Terminals → String → Terminals × Result (Unit {0}) WorkspaceError × List TerminalEffect
kill ts id = elim (lookup id ts.listed) [
  | none ↦ (ts, err (no_such_terminal id), [])
  | some armed ↦
      (record ts { listed = insert id false ts.listed }, ok tt, if armed then kills id ∷ [] else [])
]

unfoldable pub release : Terminals → String → Terminals × List TerminalEffect
release ts id =
    let (ts', _, told) = kill ts id in (record ts' { listed = remove id ts'.listed }, told)

unfoldable pub release_each : Terminals → Map String Bool → Terminals × List TerminalEffect
release_each ts [] = (ts, [])
release_each ts ((id, armed) ∷ rest) =
    let (ts', told) = release ts id in
    let (ts'', later) = release_each ts' rest in (ts'', told ++ later)

unfoldable pub release_all : Terminals → Terminals × List TerminalEffect
release_all ts = release_each ts ts.listed

-- `exit_status`, on the process's code, a `u32`.
unfoldable pub exit_status : ℕ → ExitStatus
exit_status code = record {
  exit_code = if ltb code (2 ^ 31) then some (pos code) else none;
  signal = none;
}
