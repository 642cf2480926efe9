-- ===== src/Core/Method/Client.antt =====
-- method.rs, module `client`: the methods that the client implements.
use Prim.Native.String.{String}

abbrev pub session_update : String
session_update = "session/update"

abbrev pub session_request_permission : String
session_request_permission = "session/request_permission"

abbrev pub fs_read_text_file : String
fs_read_text_file = "fs/read_text_file"

abbrev pub fs_write_text_file : String
fs_write_text_file = "fs/write_text_file"

abbrev pub terminal_create : String
terminal_create = "terminal/create"

abbrev pub terminal_output : String
terminal_output = "terminal/output"

abbrev pub terminal_kill : String
terminal_kill = "terminal/kill"

abbrev pub terminal_release : String
terminal_release = "terminal/release"

abbrev pub terminal_wait_for_exit : String
terminal_wait_for_exit = "terminal/wait_for_exit"

abbrev pub elicitation_create : String
elicitation_create = "elicitation/create"

abbrev pub elicitation_complete : String
elicitation_complete = "elicitation/complete"

abbrev pub mcp_connect : String
mcp_connect = "mcp/connect"

abbrev pub mcp_disconnect : String
mcp_disconnect = "mcp/disconnect"

abbrev pub mcp_message : String
mcp_message = "mcp/message"
