-- ===== src/Tests/Host.antt =====
-- The theorems on MCP servers that are held, and on the host that holds them for the agent, at concrete inputs.
use mjx_acp_agent.Prelude.{
  ◌≡◌, pos, String, some, none, List, [], ◌∷◌, ◌++◌, true, false, ok, err, Result, ◌+◌,
  if◌then◌else◌, ◌==◌, string_eq, refl, arith,
}
use mjx_acp_agent.Prelude.Map.{lookup}
use mjx_acp_agent.Core.Frame.{Wire, number, string, result, parse, id_eq}
use mjx_acp_agent.Core.Frame.Line.{Printer}
use mjx_acp_agent.Mcp.{
  Event, calls, says, notifies, writer_ends, reader_ends, shuts_down, over_streams, run, step, call,
  on_line, replies, asked,
}
use mjx_acp_agent.Mcp.Waiting.{waiting, answered_times, called_times}
use mjx_acp_agent.Mcp.Calls.{every_call_answered}
use mjx_acp_agent.Mcp.Answers.{call_gets_its_answer}
use mjx_acp_agent.Mcp.Late.{late_call_unanswered}
use mjx_acp_agent.Server.Mcp.{McpServerConfig, McpServerKind}
use mjx_acp_agent.Server.McpHost.{
  HostJson, new, to_agent, claim_response, answers_server, question_id,
}
use mjx_acp_agent.Server.McpHost.Numbers.{HostOp, server_says, host_step, host_run}
use mjx_acp_agent.Server.McpHost.Lifetimes.{question_answered}

-- A reader of two lines: the answer to the first call, and a notification.
abbrev read_line : String → Result Wire String
read_line line =
    if line == "answer"
    then ok (record {
      id = some (number (pos 1));
      method = none;
      params = none;
      outcome = some (some "{}");
      failure = none;
    })
    else if line == "ready"
    then ok
        (record { id = none; method = some "ready"; params = none; outcome = none; failure = none })
    else err line

abbrev plain : Printer
plain = record { id_json = λ i. "1"; string_json = λ s. s; error_json = λ e. e.message }

-- Two callers, of which the first is answered.
abbrev history : List Event
history =
    calls 7 "tools/list" none ∷ says "ready" ∷ calls 8 "tools/call" (some "{}") ∷ says "answer" ∷ []

every_call_answered_example :
    (waiting 7 (run read_line plain (over_streams "files" true) history).0.pending
        + answered_times 7 (run read_line plain (over_streams "files" true) history).1
      ≡ called_times 7 history)
    × (answered_times 7
          (run read_line plain (over_streams "files" true) (history ++ reader_ends ∷ [])).1
        ≡ called_times 7 history)
    × (answered_times 7
          (run read_line plain (over_streams "files" true) (history ++ shuts_down ∷ [])).1
        ≡ called_times 7 history)
every_call_answered_example = every_call_answered read_line plain "files" true 7 history

abbrev meanwhile : List Event
meanwhile = says "ready" ∷ calls 8 "tools/call" (some "{}") ∷ notifies "progress" none ∷ []

call_gets_its_answer_example :
    ((on_line read_line plain
        (run read_line plain
          (call read_line plain (over_streams "files" true) 7 "tools/list" none).0
          meanwhile).0
        "answer").1
      ≡ replies 7 (ok "{}") ∷ [])
    × (lookup
          (number (pos 1))
          (on_line read_line plain
            (run read_line plain
              (call read_line plain (over_streams "files" true) 7 "tools/list" none).0
              meanwhile).0
            "answer").0.pending
        ≡ none)
unfolding over_streams parse
call_gets_its_answer_example =
    call_gets_its_answer read_line plain (over_streams "files" true) 1 7 "tools/list" none meanwhile
      "answer" (result "{}") refl refl (ground arith) ((λ payload e. cc), (tt, (tt, tt))) refl

late_call_unanswered_example :
    answered_times 7
      (run read_line plain
        (step read_line plain (over_streams "files" true) reader_ends).0
        (calls 7 "tools/list" none ∷ notifies "progress" none ∷ writer_ends ∷ [])).1
    ≡ 0
unfolding over_streams
late_call_unanswered_example =
    late_call_unanswered read_line plain (over_streams "files" true) 1 7 "tools/list" none
      (notifies "progress" none ∷ writer_ends ∷ []) refl refl (ground arith) (tt, (tt, tt))

-- Params are the id of a server or of a connection.
abbrev by_id : HostJson String
by_id = record {
  connect_request = λ v. ok v;
  connection_id = λ v. some v;
  method_of = λ v. some "tools/list";
  inner_params = λ v. none;
  readable = λ v. ok tt;
  envelope = λ connection method params. method;
}

abbrev files : McpServerConfig
files = record {
  name = "files";
  kind = McpServerKind.acp (record { command = "/bin/files"; args = []; env = [] });
  unavailable = none;
}

abbrev ask : HostOp String
ask = server_says "mcp-1" 5 (asked (string "q") "roots/list" none)

question_answered_example :
    let h =
      host_run by_id (host_step by_id (host_run by_id (new (files ∷ [])) []) ask) (ask ∷ []) in
    ((claim_response by_id h (question_id 1) (result "[]")).1 ≡ true)
    × ((claim_response by_id h (question_id 1) (result "[]")).2
        ≡ answers_server 5 (string "q") (ok "[]") ∷ [])
    × (claim_response by_id h (number (pos 3)) (result "[]") ≡ (h, false, []))
unfolding new host_run to_agent
question_answered_example =
    question_answered by_id (files ∷ []) [] (ask ∷ []) "mcp-1" "roots/list" 5 (string "q")
      (question_id 1) none (some "roots/list") (result "[]") (pos 3) (ground arith) refl
