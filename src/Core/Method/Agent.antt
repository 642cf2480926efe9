-- ===== src/Core/Method/Agent.antt =====
-- method.rs, module `agent`: the methods that the agent implements.
use Prim.Native.String.{String}

abbrev pub initialize : String
initialize = "initialize"

abbrev pub authenticate : String
authenticate = "authenticate"

abbrev pub logout : String
logout = "logout"

abbrev pub session_new : String
session_new = "session/new"

abbrev pub session_load : String
session_load = "session/load"

abbrev pub session_list : String
session_list = "session/list"

abbrev pub session_delete : String
session_delete = "session/delete"

abbrev pub session_resume : String
session_resume = "session/resume"

abbrev pub session_close : String
session_close = "session/close"

abbrev pub session_fork : String
session_fork = "session/fork"

abbrev pub session_set_mode : String
session_set_mode = "session/set_mode"

abbrev pub session_set_config_option : String
session_set_config_option = "session/set_config_option"

abbrev pub session_prompt : String
session_prompt = "session/prompt"

abbrev pub session_cancel : String
session_cancel = "session/cancel"

abbrev pub mcp_message : String
mcp_message = "mcp/message"
