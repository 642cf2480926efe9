-- ===== src/Server/Interceptor/Served.antt =====
-- workspace_interceptor.rs: `handle`, `run` and `on_agent_frame`. The task that `on_agent_frame` spawns is run at once.
use mjx_acp_agent.Prelude.{
  String, Option, none, some, List, [], ◌∷◌, Bool, true, Result, ok, err, ◌>>=◌, map_err,
  if◌then◌else◌,
}
use mjx_acp_agent.Core.Frame.{
  RequestId, null, JsonRpcError, internal, RawValue, result, error, Frame, request, response,
  notification,
}
use mjx_acp_agent.Core.Frame
use mjx_acp_agent.Core.Method.{is_mcp_over_acp}
use mjx_acp_agent.Workspace.Disk.{FileSystem, WorkspaceError}
use mjx_acp_agent.Workspace.Terminals.{TerminalEffect, ExitStatus}
use mjx_acp_agent.Workspace.Connection.{
  Workspace, read_text_file, write_text_file, create_terminal, terminal_output,
  wait_for_terminal_exit, kill_terminal, release_terminal, release_all_terminals,
}
use mjx_acp_agent.Server.McpHost.{
  McpHost, HostEffect, Outcome, connected, disconnected, asks_server, refuses, claim_response,
  shutdown_all,
}
use mjx_acp_agent.Server.McpHost
use mjx_acp_agent.Server.Relay.Routing.{Disposition, forwards, rewrites, intercepts}
use mjx_acp_agent.Server.Relay.Capabilities.{merge_client_capabilities}
use mjx_acp_agent.Server.Interceptor.{
  ClientRequest, reads_text_file, writes_text_file, creates_terminal, terminal_outputs,
  terminal_waits, terminal_kills, terminal_releases, Answer, content, empty, terminal_id,
  output_so_far, exited, connection, Readers, World, Interceptor, Done, is_ours, to_rpc_error,
  client_request,
}

-- An answer to an MCP-over-ACP request, unless a server has to give it.
unfoldable pub host_answer : Outcome → Option (Result Answer JsonRpcError)
host_answer (connected id) = some (ok (connection id))
host_answer disconnected = some (ok empty)
host_answer (asks_server server method params) = none
host_answer (refuses e) = some (err e)

module _ {V E : Type 0} (readers : Readers V E) where
  -- A success as the answer that it is made.
  unfoldable pub answer_by :
      {A : Type 0} → (A → Answer) → Result A WorkspaceError → Result Answer JsonRpcError
  answer_by f r = map_err (to_rpc_error readers) r >>= λ a. ok (f a)

  abbrev pub shown_output : String × Bool × Option ExitStatus → Answer
  shown_output (text, truncated, exit) = output_so_far text truncated exit

  module _ (F : FileSystem) (w : World) where
    abbrev pub unchanged : F.Disk → Workspace → Option (Result Answer JsonRpcError) → Done F
    unchanged disk ws a = record { disk = disk; workspace = ws; answer = a; told = [] }

    unfoldable pub serve : F.Disk → Workspace → ClientRequest → Done F
    serve disk ws (reads_text_file path line limit) =
        unchanged disk ws (some (answer_by content (read_text_file F disk ws path line limit)))
    serve disk ws (writes_text_file path contents) =
        let (disk', written, told) = write_text_file F disk ws path contents in
        record {
          disk = disk';
          workspace = ws;
          answer = some (answer_by (λ _. empty) written);
          told = told;
        }
    serve disk ws (creates_terminal r) =
        let (ws', id, told) = create_terminal F disk ws r w.pty in
        record {
          disk = disk;
          workspace = ws';
          answer = some (answer_by terminal_id id);
          told = told;
        }
    serve disk ws (terminal_outputs id) =
        unchanged disk ws
          (some (answer_by shown_output (terminal_output readers.from_utf8_lossy ws id)))
    serve disk ws (terminal_waits id) =
        unchanged disk ws (elim (wait_for_terminal_exit ws id w.abandoned) [
          | none ↦ none
          | some exit ↦ some (answer_by exited exit)
        ])
    serve disk ws (terminal_kills id) =
        let (ws', killed, told) = kill_terminal ws id in
        record {
          disk = disk;
          workspace = ws';
          answer = some (answer_by (λ _. empty) killed);
          told = told;
        }
    serve disk ws (terminal_releases id) =
        let (ws', released, told) = release_terminal ws id in
        record {
          disk = disk;
          workspace = ws';
          answer = some (answer_by (λ _. empty) released);
          told = told;
        }

    unfoldable pub handle : F.Disk → Workspace → String → Frame → Done F
    handle disk ws method f = elim (client_request readers method f) [
      | err e ↦ unchanged disk ws (some (err e))
      | ok r ↦ serve disk ws r
    ]

    -- What is done for the agent, at the terminals and at the MCP servers.
    abbrev pub Doings : Type 0
    Doings = List TerminalEffect × List HostEffect

    unfoldable pub run :
        Interceptor F
        → String
        → Frame
        → Interceptor F × Option (Result Answer JsonRpcError) × Doings
    run s method f =
        if is_mcp_over_acp method
        then (let (mcp, outcome, done) =
              McpHost.handle readers.host s.mcp method (readers.value (Frame.params f)) w.started in
            (record s { mcp = mcp }, host_answer outcome, ([], done)))
        else (let done = handle s.disk s.workspace method f in
            (
              record s { disk = done.disk; workspace = done.workspace },
              done.answer,
              (done.told, []),
            ))

    -- The client's capabilities are added to on their way to the agent.
    unfoldable pub on_client_frame : Frame → Disposition
    on_client_frame f = elim (merge_client_capabilities readers.json f true true) [
      | some rewritten ↦ rewrites rewritten
      | none ↦ forwards
    ]

    -- The frame that answers a request.
    unfoldable pub reply_frame : RequestId → Result Answer JsonRpcError → Frame
    reply_frame i (err e) = response i (error e)
    reply_frame i (ok a) = elim (readers.to_raw_value a) [
      | ok raw ↦ response i (result raw)
      | err e ↦ response null (error (internal (readers.display e)))
    ]

    unfoldable pub replies_to : RequestId → Option (Result Answer JsonRpcError) → List Frame
    replies_to i none = []
    replies_to i (some a) = reply_frame i a ∷ []

    -- What becomes of a frame from the agent, what the agent is answered, and what is done for it.
    unfoldable pub on_agent_frame :
        Interceptor F → Frame → Interceptor F × Disposition × List Frame × Doings
    on_agent_frame s (notification method params) =
        if is_ours s.mcp method
        then (s, intercepts, [], ([], McpHost.notify readers.host s.mcp (readers.value params)))
        else (s, forwards, [], ([], []))
    on_agent_frame s (response i payload) =
        let (mcp, claimed, done) = claim_response readers.host s.mcp i payload in
        (record s { mcp = mcp }, if claimed then intercepts else forwards, [], ([], done))
    on_agent_frame s (request i method params) =
        if is_ours s.mcp method
        then (let (s', answer, doings) = run s method (request i method params) in
            (s', intercepts, replies_to i answer, doings))
        else (s, forwards, [], ([], []))

    unfoldable pub stop : Interceptor F → Interceptor F × Doings
    stop s =
        let (ws, told) = release_all_terminals s.workspace in
        let (mcp, done) = shutdown_all readers.host s.mcp in
        (record s { workspace = ws; mcp = mcp }, (told, done))
