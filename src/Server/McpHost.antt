-- ===== src/Server/McpHost.antt =====
-- crates/mjx-acp-server/src/mcp_host.rs: the MCP servers that are held for the agent. A server (`Arc<McpServer>`) is a
-- handle, a number; whether it starts is what the environment says. serde_json's readings of a value are a parameter.
pub mod Numbers
pub mod Connections
pub mod Lifetimes
use mjx_acp_agent.Prelude.{
  ℕ, ◌+◌, String, Option, none, some, List, [], ◌∷◌, Bool, true, false, not, Result, ok, err, ◌>>=◌,
  ok_or, map_err, if◌then◌else◌, ◌==◌, string_eq, unwrap_or, map,
}
use Prim.Native.Nat.{◌^◌, ◌%◌}
use mjx_acp_agent.Prelude.Map.{Map, lookup, insert, remove}
use mjx_acp_agent.Prelude.Decimal.{display}
use mjx_acp_agent.Core.Method.Agent.{mcp_message as agent_mcp_message}
use mjx_acp_agent.Core.Method.Client.{mcp_connect, mcp_disconnect, mcp_message}
use mjx_acp_agent.Core.Frame.{
  RequestId, null, number, string, id_eq, RawValue, JsonRpcError, invalid_params, internal,
  method_not_found, ResponsePayload, Frame, request, notification,
}
use mjx_acp_agent.Mcp.{FromServer, notified, asked, Reply, reply_of}
use mjx_acp_agent.Server.Mcp.{McpLaunch, McpServerConfig, McpServerKind, acp}
use Prim.Native.String.{◌++◌ as str_append}
use text.Mathlib.Text.{starts_with}

-- `AGENT_ID_PREFIX`
abbrev pub agent_id_prefix : String
agent_id_prefix = "mjx-mcp-"

-- `next_id` is a `u64`.
pub record McpHost : Type 0 where
  pub configured : Map String McpLaunch
  pub live : Map String ℕ
  pub awaiting_agent : Map RequestId (ℕ × RequestId)
  pub next_id : ℕ

-- What is done with a server, and what the agent is sent.
pub data HostEffect : Type 0 where
  starts : String → McpLaunch → HostEffect
  shuts : ℕ → HostEffect
  tells_server : ℕ → String → Option RawValue → HostEffect
  answers_server : ℕ → RequestId → Reply → HostEffect
  to_agent_sends : Frame → HostEffect

-- An answer, or the call of a server that has to answer first.
pub data Outcome : Type 0 where
  connected : String → Outcome
  disconnected : Outcome
  asks_server : ℕ → String → Option RawValue → Outcome
  refuses : JsonRpcError → Outcome

-- serde_json, on the params: `connect_request` reads the server's id, the others the members `connectionId`, `method`
-- and `params`, which is `none` where it is absent or null; `envelope` writes the three.
pub record HostJson (V : Type 0) : Type 0 where
  pub connect_request : V → Result String String
  pub connection_id : V → Option String
  pub method_of : V → Option String
  pub inner_params : V → Option RawValue
  pub readable : RawValue → Result (Unit {0}) String
  pub envelope : String → String → Option RawValue → RawValue

-- The servers over ACP that can work; a later one of a name replaces an earlier one.
unfoldable pub configured_from : Map String McpLaunch → List McpServerConfig → Map String McpLaunch
configured_from held [] = held
configured_from held (server ∷ servers) = elim server.unavailable [
  | some reason ↦ configured_from held servers
  | none ↦ elim server.kind [
    | acp launch ↦ configured_from (insert server.name launch held) servers
    | _ ↦ configured_from held servers
  ]
]

unfoldable pub new : List McpServerConfig → McpHost
new servers = record {
  configured = configured_from [] servers;
  live = [];
  awaiting_agent = [];
  next_id = 1;
}

unfoldable pub is_configured : McpHost → Bool
is_configured h = elim h.configured [ [] ↦ false | launch ∷ rest ↦ true ]

-- `fetch_add(1)`
abbrev pub counted : McpHost → McpHost
counted h = record h { next_id = (h.next_id + 1) % 2 ^ 64 }

abbrev pub connection_name : ℕ → String
connection_name n = str_append "mcp-" (display n)

abbrev pub question_id : ℕ → RequestId
question_id n = string (str_append agent_id_prefix (display n))

unfoldable pub not_open : String → JsonRpcError
not_open id = invalid_params (str_append "no MCP connection called `" (str_append id "` is open"))

unfoldable pub not_configured : String → JsonRpcError
not_configured id =
    invalid_params (str_append "no MCP server called `" (str_append id "` is configured"))

module _ {V : Type 0} (json : HostJson V) where
  abbrev pub named_connection : V → String
  named_connection params = unwrap_or "" (json.connection_id params)

  unfoldable pub find : McpHost → V → Result ℕ JsonRpcError
  find h params =
      ok_or (not_open (named_connection params)) (lookup (named_connection params) h.live)

  -- `take` removes what it finds.
  unfoldable pub take : McpHost → V → McpHost × Result ℕ JsonRpcError
  unfolding find
  take h params = (record h { live = remove (named_connection params) h.live }, find h params)

  unfoldable pub launch_for : McpHost → V → Result (String × McpLaunch) JsonRpcError
  launch_for h params = do
    id ← map_err invalid_params (json.connect_request params)
    launch ← ok_or (not_configured id) (lookup id h.configured)
    ok (id, launch)

  -- Once the server has been started, or has not.
  unfoldable pub connect_started : McpHost → Result ℕ String → McpHost × Outcome
  connect_started h (err detail) = (h, refuses (internal detail))
  connect_started h (ok server) = (
    record (counted h) { live = insert (connection_name h.next_id) server h.live },
    connected (connection_name h.next_id),
  )

  unfoldable pub connect : McpHost → V → Result ℕ String → McpHost × Outcome × List HostEffect
  connect h params started = elim (launch_for h params) [
    | err e ↦ (h, refuses e, [])
    | ok (id, launch) ↦
        let (h', outcome) = connect_started h started in (h', outcome, starts id launch ∷ [])
  ]

  unfoldable pub disconnect : McpHost → V → McpHost × Outcome × List HostEffect
  disconnect h params = elim (take h params).1 [
    | ok server ↦ ((take h params).0, disconnected, shuts server ∷ [])
    | err e ↦ ((take h params).0, refuses e, [])
  ]

  -- `message`, up to where it waits for the server.
  unfoldable pub message : McpHost → V → Outcome
  message h params = elim (find h params) [
    | err e ↦ refuses e
    | ok server ↦ elim (json.method_of params) [
      | some method ↦ asks_server server method (json.inner_params params)
      | none ↦ refuses (invalid_params "`method` is required")
    ]
  ]

  -- `message`, once the server has answered.
  unfoldable pub message_answered : Reply → Reply
  message_answered reply = do
    result ← reply
    _ ←
        map_err (λ e. internal (str_append "the MCP server answered unreadable JSON: " e))
          (json.readable result)
    ok result

  unfoldable pub handle :
      McpHost → String → V → Result ℕ String → McpHost × Outcome × List HostEffect
  handle h method params started =
      if method == mcp_connect
      then connect h params started
      else if method == mcp_disconnect
      then disconnect h params
      else if method == mcp_message
      then (h, message h params, [])
      else (h, refuses (method_not_found method), [])

  unfoldable pub notify : McpHost → V → List HostEffect
  notify h params = elim (find h params) [
    | err e ↦ []
    | ok server ↦ elim (json.method_of params) [
      | some method ↦ tells_server server method (json.inner_params params) ∷ []
      | none ↦ []
    ]
  ]

  unfoldable pub to_agent : McpHost → String → ℕ → FromServer → McpHost × List HostEffect
  to_agent h connection server (notified method params) = (
    h,
    to_agent_sends (notification agent_mcp_message (some (json.envelope connection method params)))
        ∷ [],
  )
  to_agent h connection server (asked server_id method params) =
      let id = question_id h.next_id in
      (
        record (counted h) { awaiting_agent = insert id (server, server_id) h.awaiting_agent },
        to_agent_sends
              (request id agent_mcp_message (some (json.envelope connection method params)))
            ∷ [],
      )

  -- The answer goes to the server that asked, if one still waits for it.
  unfoldable pub route : McpHost → RequestId → ResponsePayload → McpHost × List HostEffect
  route h id payload = (
    record h { awaiting_agent = remove id h.awaiting_agent },
    elim (lookup id h.awaiting_agent) [
      | some (server, server_id) ↦ answers_server server server_id (reply_of payload) ∷ []
      | none ↦ []
    ],
  )

  unfoldable pub claim_response :
      McpHost → RequestId → ResponsePayload → McpHost × Bool × List HostEffect
  claim_response h (string text) payload =
      if starts_with text agent_id_prefix
      then (let (h', told) = route h (string text) payload in (h', true, told))
      else (h, false, [])
  claim_response h _ payload = (h, false, [])

  unfoldable pub shut_each : Map String ℕ → List HostEffect
  shut_each [] = []
  shut_each ((id, server) ∷ rest) = shuts server ∷ shut_each rest

  unfoldable pub shutdown_all : McpHost → McpHost × List HostEffect
  shutdown_all h = (record h { live = [] }, shut_each h.live)
