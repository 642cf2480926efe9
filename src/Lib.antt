-- ===== src/Lib.antt =====
-- The verification library of mjx-acp-agent, a server that lets a browser talk to an agent process
-- over the Agent Client Protocol, JSON-RPC frames on lines.
--
-- The parts of the program and how they interact. A browser's frames and the agent's frames pass through a
-- relay (crates/mjx-acp-server/src/relay.rs). For each frame it rewrites the id of a browser's request
-- (id_bridge.rs), pairs a response with the method it answers (crates/mjx-acp-core/src/correlator.rs), shows
-- the frame to the session store (sessions.rs), which keeps one thread per session
-- (crates/mjx-acp-thread), asks the interceptor what becomes of it, and forwards it. The interceptor
-- (workspace_interceptor.rs) answers the agent's requests for files and terminals from the workspace
-- (crates/mjx-workspace), and its requests for MCP servers from the host (mcp_host.rs), which holds each server
-- (crates/mjx-mcp). Agents outlive the sockets of browsers: a browser that comes back is given the recorded
-- handshake and the threads.
--
-- Which file models which part:
--   Prelude: equality tests as an interface, lists over native numbers, i64, HashMap as an association list,
--     the printing of decimals, text as a list of bytes and its cuts.
--   Core.Frame (crates/mjx-acp-core/src/frame.rs): RequestId, Frame, Wire, parse; Core.Frame.Line: to_line;
--     Core.Frame.Params: params_as.
--   Core.Method (crates/mjx-acp-core/src/method.rs): the method names and their classes.
--   Core.Correlator (crates/mjx-acp-core/src/correlator.rs): observe and peek, as functions on the state.
--   Thread.Schema: the types of the crate agent-client-protocol, as far as this repository reads them.
--   Thread.Model (crates/mjx-acp-thread/src/lib.rs): the thread; Thread.Elicitations: its questions.
--   Thread.Fold (crates/mjx-acp-thread/src/fold.rs): apply and what it calls, one module for chunks, tool
--     calls and blocks each.
--   Thread.Paths (crates/mjx-acp-thread/src/paths.rs): absolute paths and paths with a position;
--     Thread.Mention (mention.rs): the mention URIs, with Lines for line ranges, Escapes for percent escapes,
--     Native for Windows paths, Targets for hyperlinks, Queries for parameters, Zed for the arms of zed:,
--     Parse and Print.
--   Mcp (crates/mjx-mcp/src/lib.rs): McpServer; over_streams, request as `call`, notify, answer, on_line,
--     fail_everything_pending and shutdown, and the ends of the two tasks as events.
--   Catalog (crates/mjx-agent-catalog/src/lib.rs): entries and resolve; Catalog.Registry (registry.rs): the commands
--     of published agents.
--   Server.IdBridge (crates/mjx-acp-server/src/id_bridge.rs): reattach, for_agent, for_browser.
--   Server.Sessions (crates/mjx-acp-server/src/sessions.rs): Store has the state, Client has
--     observe_from_client, Agent has observe_from_agent, one function for each arm and each `else if`.
--   Server.Relay.Handshake and Server.Relay.Sink (relay.rs, mcp.rs): Handshake, Transports, BrowserSink;
--     Server.Relay.Capabilities: merge_client_capabilities.
--   Server.Relay.Routing and Server.Relay.Handle (relay.rs): what Relay::handle calls, and Relay::handle on
--     one line, as a function from the relay's state to the new state and what is sent.
--   Server.Mcp (mcp.rs, config.rs): which configured MCP servers are added to a session's array.
--   Server.McpHost (mcp_host.rs): McpHost, one function per method; `message` ends where it waits for a server.
--   Server.Interceptor (workspace_interceptor.rs): the requests and their params; Server.Interceptor.Served:
--     handle, run, on_client_frame, on_agent_frame and stop.
--   Workspace.Disk: paths by their components, and the file system as a parameter; Workspace.Files and
--     Workspace.Listing (crates/mjx-workspace/src/fs.rs): resolve_within, reading and writing, list_within.
--   Workspace.Output and Workspace.Terminals (crates/mjx-workspace/src/terminal.rs): the byte budget of an
--     output, and the table of terminals; Workspace.Connection (lib.rs): Workspace.
--   Tests: every theorem at a concrete input.
-- A method that mutates `self` is a function from the state to the new state, paired with what it returns.
--
-- Bounds and fuel. The bridge's counter and that of an MCP server are i64s that wrap; their theorems ask for fewer
-- than 2 ^ 63 - 1 requests. The counters of the host and of the terminals are u64s that wrap; their theorems ask for
-- fewer than 2 ^ 64 numbers. The sink's generation is a u64 that wraps; its theorem asks for room for one more. A
-- thread's entry counter is a usize, taken as unbounded. The decimal printer runs on fuel one more than the number,
-- which is more than it has digits. The walk of a listing runs on fuel two more than its limit of visits, and the
-- listing is proved to answer, since each turn of its loop visits a directory. All other loops are structural.
--
-- Not modelled. serde_json, the url crate and the schema crate are parameters: readers of lines and payloads,
-- printers, and the types that the program only stores. So are the file system and whether a process or an MCP server
-- starts. Sockets, tasks, child processes, PTYs, HTTP and configuration files are I/O: main.rs, agent_process.rs, the
-- loops of relay.rs, the reading of config.rs and the fetching of the registry of agents. The mock agent and the
-- web client are not the server. The display of a mention (name, tooltip_text, as_link) and the rendering of a workspace event as a
-- notification are text alone. In the relay the interceptor and the editing of a session request's JSON are parameters.
-- The locks of the relay, of the host and of the terminals are taken one at a time; the model runs one step to its end
-- before the next. A HashMap's order of iteration is not documented; where the program iterates over all sessions,
-- callers or terminals, the model goes in the order of its list. A path holds no `.` and no empty component, as
-- std::path's components do not.
--
-- What the theorems on mentions rely on of the url crate is Thread.Mention.Laws: paths are set on URLs of zed and file
-- only, and in such a path no slash or dot is right behind a slash. A symbolic link is what the file system makes of a path; where a file
-- is written, only its directory is resolved, as in fs.rs.
pub mod Prelude
pub mod Core
pub mod Mcp
pub mod Catalog
pub mod Server
pub mod Thread
pub mod Workspace
mod Tests
