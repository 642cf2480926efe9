-- ===== src/Core/Method.antt =====
-- crates/mjx-acp-core/src/method.rs: which side answers a method.
pub mod Agent
pub mod Client
pub mod Sides
use Prim.Native.String.{String}
use text.Mathlib.Text.{starts_with}
use mjx_acp_agent.Prelude.{
  Bool, true, false, Option, none, some, List, [], ◌∷◌, ◌||◌, ◌==◌, PartialEq, string_eq,
  if◌then◌else◌,
}

-- `protocol::CANCEL_REQUEST`
abbrev pub cancel_request : String
cancel_request = "$/cancel_request"

pub data Side : Type 0 where
  agent client either : Side

-- A `match` arm of several literals.
abbrev pub matches : List String → String → Bool
matches [] m = false
matches (x ∷ xs) m = (m == x) || matches xs m

abbrev pub agent_methods : List String
agent_methods =
    Agent.initialize ∷ Agent.authenticate ∷ Agent.logout ∷ Agent.session_new ∷ Agent.session_load
    ∷ Agent.session_list ∷ Agent.session_delete ∷ Agent.session_resume ∷ Agent.session_close
    ∷ Agent.session_fork ∷ Agent.session_set_mode ∷ Agent.session_set_config_option
    ∷ Agent.session_prompt ∷ Agent.session_cancel ∷ []

abbrev pub client_methods : List String
client_methods =
    Client.session_update ∷ Client.session_request_permission ∷ Client.fs_read_text_file
    ∷ Client.fs_write_text_file ∷ Client.terminal_create ∷ Client.terminal_output
    ∷ Client.terminal_kill ∷ Client.terminal_release ∷ Client.terminal_wait_for_exit
    ∷ Client.elicitation_create ∷ Client.elicitation_complete ∷ Client.mcp_connect
    ∷ Client.mcp_disconnect ∷ []

abbrev pub either_methods : List String
either_methods = cancel_request ∷ "mcp/message" ∷ []

unfoldable pub side : String → Option Side
side method =
    if matches agent_methods method
    then some agent
    else if matches client_methods method
    then some client
    else if matches either_methods method
    then some either
    else none

abbrev pub server_methods : List String
server_methods =
    Client.fs_read_text_file ∷ Client.fs_write_text_file ∷ Client.terminal_create
    ∷ Client.terminal_output ∷ Client.terminal_kill ∷ Client.terminal_release
    ∷ Client.terminal_wait_for_exit ∷ []

unfoldable pub is_server_provided_capability : String → Bool
is_server_provided_capability method = matches server_methods method

abbrev pub mcp_methods : List String
mcp_methods = Client.mcp_connect ∷ Client.mcp_disconnect ∷ Client.mcp_message ∷ []

unfoldable pub is_mcp_over_acp : String → Bool
is_mcp_over_acp method = matches mcp_methods method

unfoldable pub is_extension : String → Bool
is_extension method = starts_with method "_"
