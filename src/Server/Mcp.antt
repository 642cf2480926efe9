-- ===== src/Server/Mcp.antt =====
-- mcp.rs, and the servers of config.rs that it offers: what is added to the `mcpServers` of a session. A
-- path is its text; serde_json's writer, and its reading of a server's name, are parameters.
pub mod Secrets
use mjx_acp_agent.Server.Relay.Handshake.{Transports}
use mjx_acp_agent.Core.Method.Agent.{session_resume, session_fork, session_load, session_new}
use mjx_acp_agent.Prelude.{
  ◌||◌, String, Option, none, some, List, [], ◌∷◌, ◌++◌, Bool, true, false, any, ◌==◌, string_eq,
  if◌then◌else◌,
}
use Prim.Native.String.{◌++◌ as str_append}

pub record McpLaunch : Type 0 where
  pub command : String
  pub args : List String
  pub env : List (String × String)

pub record McpEndpoint : Type 0 where
  pub url : String
  pub headers : List (String × String)

pub data McpServerKind : Type 0 where
  stdio acp : McpLaunch → McpServerKind
  http sse : McpEndpoint → McpServerKind

pub record McpServerConfig : Type 0 where
  pub name : String
  pub kind : McpServerKind
  pub unavailable : Option String

unfoldable pub transport : McpServerKind → String
transport (stdio launch) = "stdio"
transport (http endpoint) = "http"
transport (sse endpoint) = "sse"
transport (acp launch) = "acp"

abbrev pub supported : McpServerKind → Transports → Bool
supported (stdio launch) t = true
supported (http endpoint) t = t.http
supported (sse endpoint) t = t.sse
supported (acp launch) t = t.acp

unless_given : Option String → McpServerKind → Transports → Option String
unfolding transport
unless_given (some reason) kind t = some reason
unless_given none kind t =
    if supported kind t
    then none
    else some (
        str_append "this agent did not declare the `"
          (str_append (transport kind) "` MCP transport"))

unfoldable pub skip_reason : McpServerConfig → Transports → Option String
unfolding unless_given
skip_reason server t = unless_given server.unavailable server.kind t

-- The schema's own type of a server (`acp::McpServer`).
pub data WireServer : Type 0 where
  stdio_server : String → String → List String → List (String × String) → WireServer
  http_server sse_server : String → String → List (String × String) → WireServer
  acp_server : String → String → WireServer

unfoldable pub wire_server : String → McpServerKind → WireServer
wire_server name (stdio launch) = stdio_server name launch.command launch.args launch.env
wire_server name (http endpoint) = http_server name endpoint.url endpoint.headers
wire_server name (sse endpoint) = sse_server name endpoint.url endpoint.headers
wire_server name (acp launch) = acp_server name name

abbrev pub opens_a_session : String → Bool
opens_a_session m =
    m == session_new || m == session_load || m == session_fork || m == session_resume

module _ {V : Type 0} (to_value : WireServer → Option V) (name_of : V → Option String) where
  unfoldable pub to_wire : McpServerConfig → Option V
  to_wire server = to_value (wire_server server.name server.kind)

  -- `filter_map` over the array.
  unfoldable pub declared_names : List V → List String
  declared_names [] = []
  declared_names (v ∷ vs) =
      let rest = declared_names vs in
      elim (name_of v) as (λ _. List String) [ none ↦ rest | some n ↦ n ∷ rest ]

  -- What one configured server adds.
  unfoldable pub offer_one : List String → Transports → McpServerConfig → List V
  offer_one declared t server =
      if any (λ n. n == server.name) declared
      then []
      else elim (skip_reason server t) as (λ _. List V) [
        | some reason ↦ []
        | none ↦ elim (to_wire server) as (λ _. List V) [ none ↦ [] | some v ↦ v ∷ [] ]
      ]

  unfoldable pub offer : List String → Transports → List McpServerConfig → List V
  offer declared t [] = []
  offer declared t (server ∷ servers) = offer_one declared t server ++ offer declared t servers

  if_added : List V → List V → Option (List V)
  if_added existing [] = none
  if_added existing (v ∷ vs) = some (existing ++ v ∷ vs)

  -- The new array, if anything was added.
  unfoldable pub merge_servers : List V → List McpServerConfig → Transports → Option (List V)
  unfolding if_added
  merge_servers existing servers t = if_added existing (offer (declared_names existing) t servers)
