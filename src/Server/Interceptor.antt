-- ===== src/Server/Interceptor.antt =====
-- crates/mjx-acp-server/src/workspace_interceptor.rs: what the server answers in the browser's place. serde_json, the
-- display of a path and the lossy decoder are a parameter (`Readers`); what the system answers is one (`World`).
pub mod Served
pub mod Confined
pub mod Requests
pub mod Replies
use mjx_acp_agent.Prelude.{
  ℕ, String, Option, none, some, List, [], ◌∷◌, map, Bool, true, false, Result, ok, err, ◌>>=◌,
  map_err, ok_or, if◌then◌else◌, ◌==◌, string_eq, ◌||◌, ◌&&◌,
}
use mjx_acp_agent.Prelude.Text.{Text}
use mjx_acp_agent.Core.Frame.{
  RequestId, null, RawValue, JsonRpcError, invalid_params, internal, method_not_found,
  ResponsePayload, result, error, Frame, request, response, notification,
}
use mjx_acp_agent.Core.Frame.Params.{Decoder, params_as}
use mjx_acp_agent.Core.Method.{is_server_provided_capability, is_mcp_over_acp}
use mjx_acp_agent.Core.Method.Client
use mjx_acp_agent.Workspace.Disk.{FileSystem, FilePath, WorkspaceError, code}
use mjx_acp_agent.Workspace.Terminals.{ExitStatus, PtyOutcome, TerminalEffect}
use mjx_acp_agent.Workspace.Connection.{
  Workspace, TerminalRequest, error_text, read_text_file, write_text_file, create_terminal,
  terminal_output, wait_for_terminal_exit, kill_terminal, release_terminal, release_all_terminals,
}
use mjx_acp_agent.Server.Mcp.{McpServerConfig}
use mjx_acp_agent.Server.McpHost.{
  McpHost, HostJson, HostEffect, Outcome, connected, disconnected, asks_server, refuses,
  is_configured, claim_response, shutdown_all,
}
use mjx_acp_agent.Server.McpHost
use mjx_acp_agent.Workspace.Connection
use mjx_acp_agent.Server.Relay.Capabilities.{JsonValues}
use mjx_acp_agent.Server.Relay.Routing.{Disposition, forwards, intercepts}

-- The requests of the agent that the workspace serves.
pub data ClientRequest : Type 0 where
  reads_text_file : FilePath → Option ℕ → Option ℕ → ClientRequest
  writes_text_file : FilePath → Text → ClientRequest
  creates_terminal : TerminalRequest → ClientRequest
  terminal_outputs terminal_waits terminal_kills terminal_releases : String → ClientRequest

-- The JSON objects that requests are answered with; an exit status holds the members that are there.
pub data Answer : Type 0 where
  content : Text → Answer
  empty : Answer
  terminal_id : String → Answer
  output_so_far : String → Bool → Option ExitStatus → Answer
  exited : ExitStatus → Answer
  connection : String → Answer

pub record Readers (V E : Type 0) : Type 0 where
  pub host : HostJson V
  pub json : JsonValues V
  pub value : Option RawValue → V
  pub read_request : Decoder E (FilePath × Option ℕ × Option ℕ)
  pub write_request : Decoder E (FilePath × Text)
  pub create_request : Decoder E TerminalRequest
  pub terminal_request : Decoder E String
  pub display : E → String
  pub display_path : FilePath → String
  pub to_raw_value : Answer → Result RawValue E
  pub from_utf8_lossy : List ℕ → String

-- What the system does when it is asked: for a terminal, for the wait for one, and for an MCP server.
pub record World : Type 0 where
  pub pty : PtyOutcome
  pub abandoned : Bool
  pub started : Result ℕ String

-- The disk is not the interceptor's, but what it works on.
pub record Interceptor (F : FileSystem) : Type 0 where
  pub disk : F.Disk
  pub workspace : Workspace
  pub mcp : McpHost

-- What a request comes to; `none` is an answer that is still waited for.
pub record Done (F : FileSystem) : Type 0 where
  pub disk : F.Disk
  pub workspace : Workspace
  pub answer : Option (Result Answer JsonRpcError)
  pub told : List TerminalEffect

unfoldable pub new :
    (F : FileSystem) → F.Disk → List FilePath → FilePath → List McpServerConfig → Interceptor F
new F disk roots cwd servers = record {
  disk = disk;
  workspace = Connection.new roots cwd;
  mcp = McpHost.new servers;
}

unfoldable pub is_ours : McpHost → String → Bool
is_ours mcp method =
    is_server_provided_capability method || (is_mcp_over_acp method && is_configured mcp)

module _ {V E : Type 0} (readers : Readers V E) where
  unfoldable pub to_rpc_error : WorkspaceError → JsonRpcError
  to_rpc_error e = record {
    code = code e;
    message = error_text readers.display_path e;
    error_data = none;
  }

  unfoldable pub params : {T : Type 0} → Decoder E T → Frame → Result T JsonRpcError
  params decode f = do
    read ← map_err (λ e. invalid_params (readers.display e)) (params_as decode f)
    ok_or (invalid_params "missing params") read

  -- The request that a method's params are.
  unfoldable pub client_request : String → Frame → Result ClientRequest JsonRpcError
  client_request method f =
      let on_terminal : (String → ClientRequest) → Result ClientRequest JsonRpcError =
        λ kind. params readers.terminal_request f >>= λ id. ok (kind id) in
      if method == Client.fs_read_text_file
      then (params readers.read_request f >>= λ (path, line, limit).
          ok (reads_text_file path line limit))
      else if method == Client.fs_write_text_file
      then (params readers.write_request f >>= λ (path, contents).
          ok (writes_text_file path contents))
      else if method == Client.terminal_create
      then (params readers.create_request f >>= λ r. ok (creates_terminal r))
      else if method == Client.terminal_output
      then on_terminal terminal_outputs
      else if method == Client.terminal_wait_for_exit
      then on_terminal terminal_waits
      else if method == Client.terminal_kill
      then on_terminal terminal_kills
      else if method == Client.terminal_release
      then on_terminal terminal_releases
      else err (method_not_found method)
