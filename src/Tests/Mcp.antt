-- ===== src/Tests/Mcp.antt =====
-- The theorems on configured MCP servers at concrete inputs.
use mjx_acp_agent.Server.Mcp.Secrets.{secrets_stay, redacted}
use mjx_acp_agent.Server.Relay.Handshake.{Transports}
use mjx_acp_agent.Server.Mcp.{McpServerKind, WireServer, merge_servers, McpServerConfig}
use mjx_acp_agent.Prelude.{true, String, Option, false, ◌≡◌, [], ◌∷◌, string_eq, some, none, map}

abbrev files : McpServerConfig
files = record {
  name = "files";
  kind =
      McpServerKind.acp
        (record { command = "/bin/files"; args = []; env = ("TOKEN", "secret") ∷ [] });
  unavailable = none;
}

abbrev web : McpServerConfig
web = record {
  name = "web";
  kind = McpServerKind.http (record { url = "https://example.org"; headers = [] });
  unavailable = none;
}

abbrev over_acp : Transports
over_acp = record { http = false; sse = false; acp = true }

abbrev itself : WireServer → Option WireServer
itself s = some s

abbrev its_name : WireServer → Option String
its_name (WireServer.acp_server name i) = some name
its_name _ = none

secrets_stay_example :
    merge_servers itself its_name [] (map redacted (files ∷ web ∷ [])) over_acp
    ≡ merge_servers itself its_name [] (files ∷ web ∷ []) over_acp
secrets_stay_example = secrets_stay itself its_name [] (files ∷ web ∷ []) over_acp
