-- ===== src/Tests/Data.antt =====
-- A small instance of the protocol's types, and readers for it whose payloads are session ids.
use mjx_acp_agent.Prelude.{
  ℕ, String, nat_beq, none, [], ◌∷◌, ok, err, if◌then◌else◌, ◌==◌, string_eq,
}
use mjx_acp_agent.Thread.Schema.{
  Schema, ContentBlock, text, agent_message_chunk, session, RequestedMode,
}
use mjx_acp_agent.Server.Sessions.Store.{Decoders, SessionState, decline}

abbrev pub acp : Schema
acp = record {
  Extra = ℕ;
  extra_eq = nat_beq;
  OtherBlock = ℕ;
  other_eq = nat_beq;
  ToolKind = String;
  ToolCallStatus = String;
  default_kind = "other";
  default_status = "pending";
  ToolCallContent = String;
  ToolCallLocation = String;
  PlanEntry = String;
  AvailableCommand = String;
  SessionMode = String;
  SessionConfigOption = String;
  StopReason = String;
  cancelled = "cancelled";
  ElicitationSchema = String;
  ElicitationContent = String;
  Json = String;
  Amount = ℕ;
}

abbrev pub words : String → ContentBlock acp
words s = text s 0

abbrev pub no_state : SessionState acp
no_state = record { modes = none; config_options = none }

abbrev pub readers : Decoders acp String
readers = record {
  load_session = λ raw. ok raw;
  resume_session = λ raw. ok raw;
  delete_session = λ raw. ok raw;
  close_session = λ raw. ok raw;
  set_config_option = λ raw. ok raw;
  prompt = λ raw. ok (record { session_id = raw; prompt = words "hello" ∷ [] });
  create_elicitation = λ raw. ok (record {
    message = "sign in";
    mode = RequestedMode.url "e1" "https://example.org";
    scope = session raw none;
  });
  complete_elicitation = λ raw. ok raw;
  session_notification = λ raw.
      if raw == "bad"
      then err raw
      else ok (raw, agent_message_chunk (record { content = words raw; message_id = none }));
  prompt_response = λ raw. ok raw;
  new_session_response = λ raw. ok (raw, no_state);
  load_session_response = λ raw. ok no_state;
  set_config_option_response = λ raw. ok (raw ∷ []);
  create_elicitation_response = λ raw. ok decline;
}
