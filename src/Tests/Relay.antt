-- ===== src/Tests/Relay.antt =====
-- The theorems on the relay's routing at concrete inputs.
use mjx_acp_agent.Core.Method.Client.{session_request_permission}
use mjx_acp_agent.Core.Frame.Line.{to_line}
use mjx_acp_agent.Prelude.Map.{lookup}
use mjx_acp_agent.Server.IdBridge.{for_browser}
use mjx_acp_agent.Core.Method.{is_extension}
use mjx_acp_agent.Server.Sessions.Store.{new_store, session_of_prompt}
use mjx_acp_agent.Core.Method.Agent.{session_prompt}
use mjx_acp_agent.Tests.Data.{acp, readers}
use mjx_acp_agent.Tests.Server.{json}
use mjx_acp_agent.Server.Relay.Handle.Ends.{
  extension_private, prompt_over, ExtensionAnswered, Drops,
}
use mjx_acp_agent.Server.Relay.Routing.{
  Hooks, Relay, line, turn_ended, forwards, stop_reason_of, Action,
}
use mjx_acp_agent.Server.Relay.Handshake
use mjx_acp_agent.Server.Relay.Handle.{handle}
use mjx_acp_agent.Core.Frame.{parse, method, number, string, id_eq, response, request, result}
use mjx_acp_agent.Core.Correlator.{peek, client_to_agent, agent_to_client}
use mjx_acp_agent.Prelude.{
  String, pos, some, none, [], ◌∷◌, ◌≡◌, ◌==◌, refl, string_eq, ok, err, true, false, if◌then◌else◌,
  List,
}

-- Lines are known by short names; the interceptor passes everything on.
abbrev hooks : Hooks acp String
hooks = record {
  from_str = λ text.
      if text == "replay"
      then ok (record {
        id = some (number (pos 5));
        method = some "_mjx/session/replay";
        params = some "s1";
        outcome = none;
        failure = none;
      })
      else if text == "done"
      then ok (record {
        id = some (number (pos 1));
        method = none;
        params = none;
        outcome = some (some "end_turn");
        failure = none;
      })
      else err text;
  printer = record { id_json = λ i. "1"; string_json = λ s. s; error_json = λ e. e.message };
  readers = readers;
  json = json;
  on_frame = λ way f. (forwards, []);
  has_servers = false;
  merge_mcp_servers = λ f t. none;
  session_in = λ raw. some raw;
  stop_reason_in = λ raw. some raw;
  replay_request = λ raw. ok raw;
  thread_json = λ t. ok "{}";
  display = λ e. e;
}

-- A prompt of a browser that has left is in flight, and a question of its session waits.
abbrev mid_turn : Relay acp
mid_turn = record {
  correlator = record { from_client = (number (pos 1), session_prompt) ∷ []; from_agent = [] };
  ids = record { next = pos 1; outstanding = [] };
  handshake = Handshake.new;
  unanswered = request (string "q") session_request_permission (some "s1") ∷ [];
  sessions = record (new_store acp) { pending_prompts = (number (pos 1), "s1") ∷ [] };
}

parsed_replay :
    parse hooks.from_str "replay" ≡ ok (request (number (pos 5)) "_mjx/session/replay" (some "s1"))
unfolding parse
parsed_replay = refl

named_replay :
    method (request (number (pos 5)) "_mjx/session/replay" (some "s1")) ≡ some "_mjx/session/replay"
unfolding method
named_replay = refl

private_replay : is_extension "_mjx/session/replay" ≡ true
unfolding is_extension
private_replay = refl

extension_private_example :
    ((handle hooks mid_turn client_to_agent "replay").0 ≡ mid_turn)
    × ExtensionAnswered hooks mid_turn
        (request (number (pos 5)) "_mjx/session/replay" (some "s1"))
        (handle hooks mid_turn client_to_agent "replay").1
extension_private_example =
    extension_private hooks mid_turn "replay"
      (request (number (pos 5)) "_mjx/session/replay" (some "s1")) "_mjx/session/replay"
      parsed_replay named_replay private_replay

parsed_done : parse hooks.from_str "done" ≡ ok (response (number (pos 1)) (result "end_turn"))
unfolding parse
parsed_done = refl

asked_done : peek mid_turn.correlator client_to_agent (number (pos 1)) ≡ some session_prompt
unfolding peek lookup
asked_done = refl

prompt_done : session_of_prompt mid_turn.sessions (number (pos 1)) ≡ some "s1"
unfolding session_of_prompt lookup
prompt_done = refl

prompt_over_example :
    ((handle hooks mid_turn agent_to_client "done").1
      ≡ (elim (for_browser mid_turn.ids (number (pos 1))).1 as (λ _. List Action) [
        | none ↦ turn_ended "s1" (stop_reason_of hooks (result "end_turn")) ∷ []
        | some browser ↦
            line agent_to_client (to_line hooks.printer (response browser (result "end_turn"))) ∷ []
      ]))
    × Drops hooks "s1" (handle hooks mid_turn agent_to_client "done").0.unanswered
prompt_over_example =
    prompt_over hooks mid_turn "done" (number (pos 1)) (result "end_turn") "s1" parsed_done
      asked_done prompt_done refl
