-- ===== src/Tests/Core.antt =====
-- The theorems on the core crate at concrete inputs.
use mjx_acp_agent.Core.Method.Agent.{session_new, session_prompt}
use mjx_acp_agent.Core.Frame.RoundTrip.{members, wire_of, parse-to_line}
use mjx_acp_agent.Core.Correlator.Pairing.{response_pairs, observe_all}
use mjx_acp_agent.Core.Method.Client.{fs_read_text_file, terminal_create}
use mjx_acp_agent.Core.Method.{is_server_provided_capability, is_extension}
use mjx_acp_agent.Core.Frame.Line.{to_line, Printer}
use mjx_acp_agent.Core.Correlator.{peek, client_to_agent, agent_to_client, new, Direction, observe}
use mjx_acp_agent.Prelude.{
  string_eq, err, ◌==◌, if◌then◌else◌, List, pos, some, none, [], ◌∷◌, ◌≡◌, refl, ok, Result,
  String, true,
}
use mjx_acp_agent.Core.Frame.{result, response, number, request, Frame, parse, Wire, id_eq}

abbrev plain_printer : Printer
plain_printer = record {
  id_json = λ i. "7";
  string_json = λ s. "\"session/prompt\"";
  error_json = λ e. "{}";
}

abbrev prompt_frame : Frame
prompt_frame = request (number (pos 7)) session_prompt (some "{}")

-- A reader that knows the one line.
abbrev one_line : String → Result Wire String
one_line line =
    if line == "{\"jsonrpc\":\"2.0\",\"id\":7,\"method\":\"session/prompt\",\"params\":{}}"
    then ok (wire_of (members prompt_frame))
    else err "other"

parse-to_line_example : parse one_line (to_line plain_printer prompt_frame) ≡ ok prompt_frame
parse-to_line_example = parse-to_line plain_printer one_line prompt_frame refl

abbrev crossing : List (Direction × Frame)
crossing =
    (agent_to_client, request (number (pos 7)) fs_read_text_file none)
    ∷ (client_to_agent, response (number (pos 7)) (result "{}"))
    ∷ (client_to_agent, request (number (pos 8)) session_new none)
    ∷ []

response_pairs_example :
    ((observe
        (observe_all
          (observe new client_to_agent (request (number (pos 7)) session_prompt none)).0
          crossing)
        agent_to_client
        (response (number (pos 7)) (result "{}"))).1
      ≡ some session_prompt)
    × (peek
          (observe
            (observe_all
              (observe new client_to_agent (request (number (pos 7)) session_prompt none)).0
              crossing)
            agent_to_client
            (response (number (pos 7)) (result "{}"))).0
          client_to_agent
          (number (pos 7))
        ≡ none)
response_pairs_example =
    response_pairs new client_to_agent (number (pos 7)) session_prompt none crossing (result "{}")
      (refl, (refl, (refl, tt)))

served : is_server_provided_capability terminal_create ≡ true
unfolding is_server_provided_capability
served = refl

extension : is_extension "_mjx/agent_info" ≡ true
unfolding is_extension
extension = refl
