-- ===== src/Tests/Interceptor.antt =====
-- The theorems on the workspace interceptor at concrete inputs.
use mjx_acp_agent.Prelude.{
  ◌≡◌, ◌⊎◌, pos, String, some, none, [], ◌∷◌, true, false, ok, err, if◌then◌else◌, string_eq, refl,
}
use mjx_acp_agent.Prelude.Map.{lookup}
use mjx_acp_agent.Prelude.Text.{str}
use mjx_acp_agent.Core.Frame.{
  Frame, params, number, request, response, ResponsePayload, invalid_params, method_not_found,
}
use mjx_acp_agent.Core.Method.{is_server_provided_capability}
use mjx_acp_agent.Core.Method.Agent.{initialize}
use mjx_acp_agent.Core.Method.Client.{
  fs_write_text_file, terminal_wait_for_exit, mcp_message, terminal_create,
}
use mjx_acp_agent.Workspace.Connection
use mjx_acp_agent.Server.Interceptor.{Readers, World, Answer, Interceptor, is_ours}
use mjx_acp_agent.Server.Interceptor
use mjx_acp_agent.Server.Interceptor.Served.{handle, on_agent_frame, unchanged}
use mjx_acp_agent.Server.Interceptor.Confined.{Confined}
use mjx_acp_agent.Server.Interceptor.Replies.{request_answered}
use mjx_acp_agent.Server.Interceptor.Requests.{handle-missing_params}
use mjx_acp_agent.Server.Relay.Routing.{forwards, intercepts}
use mjx_acp_agent.Server.Relay.Capabilities.{merge_client_capabilities, value_of, entry_or_empty}
use mjx_acp_agent.Server.Relay.Capabilities.Declared.{member, merge_client_capabilities-declares}
use mjx_acp_agent.Tests.Json.{Tree, truth, word, tree_json, reads_back}
use mjx_acp_agent.Tests.Workspace.{one_file, workspace_root, the_file, works}

-- Every request for a file is for `/w/a`.
abbrev readers : Readers Tree String
readers = record {
  host = record {
    connect_request = λ v. ok "files";
    connection_id = λ v. some "mcp-1";
    method_of = λ v. none;
    inner_params = λ v. none;
    readable = λ v. ok tt;
    envelope = λ connection method params. method;
  };
  json = tree_json;
  value = λ q. truth;
  read_request = λ raw. ok (the_file, none, none);
  write_request = λ raw. ok (the_file, str raw);
  create_request = λ raw. err raw;
  terminal_request = λ raw. ok raw;
  display = λ e. e;
  display_path = λ p. "a path";
  to_raw_value = λ a. ok "{}";
  from_utf8_lossy = λ bytes. "shown";
}

abbrev world : World
world = record { pty = works; abandoned = false; started = ok 5 }

abbrev fresh : Interceptor one_file
fresh = Interceptor.new one_file (str "old") (workspace_root ∷ []) workspace_root []

abbrev write : Frame
write = request (number (pos 4)) fs_write_text_file (some "new")

handle-missing_params_example :
    handle readers one_file world
      (str "old")
      (Connection.new (workspace_root ∷ []) workspace_root)
      terminal_create
      (request (number (pos 4)) terminal_create none)
    ≡ unchanged readers one_file world
        (str "old")
        (Connection.new (workspace_root ∷ []) workspace_root)
        (some (
          err (
            if is_server_provided_capability terminal_create
            then invalid_params "missing params"
            else method_not_found terminal_create)))
unfolding params
handle-missing_params_example =
    handle-missing_params readers one_file world (str "old")
      (Connection.new (workspace_root ∷ []) workspace_root) terminal_create
      (request (number (pos 4)) terminal_create none) refl

request_answered_example :
    let (_, disposition, replies, _) = on_agent_frame readers one_file world fresh write in
    ((is_ours fresh.mcp fs_write_text_file ≡ false)
      × (on_agent_frame readers one_file world fresh write ≡ (fresh, forwards, [], ([], []))))
    ⊎ ((is_ours fresh.mcp fs_write_text_file ≡ true)
        × (disposition ≡ intercepts)
        × (((payload : ResponsePayload) × (replies ≡ response (number (pos 4)) payload ∷ []))
            ⊎ ((replies ≡ [])
                × ((fs_write_text_file ≡ terminal_wait_for_exit)
                    ⊎ (fs_write_text_file ≡ mcp_message)))))
request_answered_example =
    request_answered readers one_file world fresh (number (pos 4)) fs_write_text_file (some "new")
      (λ a. ("{}", refl))

-- The browser opts out of reading files, and is taken to read them.
merge_client_capabilities-declares_example :
    (v : Tree) × (merge_client_capabilities tree_json
        (request (number (pos 1)) initialize (some "opted out"))
        true
        true
      ≡ some (request (number (pos 1)) initialize (some "{}")))
    × (member tree_json ("clientCapabilities" ∷ "fs" ∷ "readTextFile" ∷ []) v ≡ some truth)
    × (member tree_json ("clientCapabilities" ∷ "fs" ∷ "writeTextFile" ∷ []) v ≡ some truth)
    × (member tree_json ("clientCapabilities" ∷ "terminal" ∷ []) v ≡ some truth)
    × (member tree_json ("protocolVersion" ∷ []) v ≡ some (word "1"))
    × (member tree_json ("clientCapabilities" ∷ "protocolVersion" ∷ []) v ≡ none)
    × (member tree_json ("clientCapabilities" ∷ "fs" ∷ "protocolVersion" ∷ []) v ≡ none)
unfolding value_of entry_or_empty lookup
merge_client_capabilities-declares_example =
    merge_client_capabilities-declares tree_json reads_back (λ v. "{}") (λ v. refl) (number (pos 1))
      (some "opted out") "protocolVersion" _ _ _ refl refl refl
