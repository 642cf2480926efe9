-- ===== src/Thread/Schema.antt =====
-- The `acp` schema types (crate agent-client-protocol), as far as this repository reads them: the variants
-- that it matches on and the fields that it uses. What it only stores is an abstract type.
use mjx_acp_agent.Prelude.{ℕ, String, Option, List, Bool}

pub record Schema : Type 1 where
  -- the fields of a content block that no code here reads, and blocks of a kind that none knows
  pub Extra : Type 0
  pub extra_eq : Extra → Extra → Bool
  pub OtherBlock : Type 0
  pub other_eq : OtherBlock → OtherBlock → Bool
  pub ToolKind : Type 0
  pub ToolCallStatus : Type 0
  pub default_kind : ToolKind
  pub default_status : ToolCallStatus
  pub ToolCallContent : Type 0
  pub ToolCallLocation : Type 0
  pub PlanEntry : Type 0
  pub AvailableCommand : Type 0
  pub SessionMode : Type 0
  pub SessionConfigOption : Type 0
  pub StopReason : Type 0
  pub cancelled : StopReason
  pub ElicitationSchema : Type 0
  pub ElicitationContent : Type 0
  -- `serde_json::Value`, and the `f64` of an amount of money
  pub Json : Type 0
  pub Amount : Type 0

-- The uri of a `resource` is that of its text or blob contents.
pub data ContentBlock (S : Schema) : Type 0 where
  text : String → S.Extra → ContentBlock S
  image : String → String → S.Extra → ContentBlock S
  audio : String → String → S.Extra → ContentBlock S
  resource_link : String → S.Extra → ContentBlock S
  resource : Option String → S.Extra → ContentBlock S
  other : S.OtherBlock → ContentBlock S

pub record ToolCallFields (S : Schema) : Type 0 where
  pub title : Option String
  pub kind : Option S.ToolKind
  pub status : Option S.ToolCallStatus
  pub content : Option (List S.ToolCallContent)
  pub locations : Option (List S.ToolCallLocation)
  pub raw_input : Option S.Json
  pub raw_output : Option S.Json

pub record ToolCallUpdate (S : Schema) : Type 0 where
  pub tool_call_id : String
  pub fields : ToolCallFields S

-- `acp::ToolCall`
pub record ToolCallNotice (S : Schema) : Type 0 where
  pub tool_call_id : String
  pub title : String
  pub kind : S.ToolKind
  pub status : S.ToolCallStatus
  pub content : List S.ToolCallContent
  pub locations : List S.ToolCallLocation
  pub raw_input : Option S.Json
  pub raw_output : Option S.Json

-- `acp::ContentChunk`
pub record ContentChunk (S : Schema) : Type 0 where
  pub content : ContentBlock S
  pub message_id : Option String

pub record UsageReport (S : Schema) : Type 0 where
  pub used : ℕ
  pub size : ℕ
  pub cost : Option (S.Amount × String)

pub data SessionUpdate (S : Schema) : Type 0 where
  user_message_chunk : ContentChunk S → SessionUpdate S
  agent_message_chunk : ContentChunk S → SessionUpdate S
  agent_thought_chunk : ContentChunk S → SessionUpdate S
  tool_call : ToolCallNotice S → SessionUpdate S
  tool_call_update : ToolCallUpdate S → SessionUpdate S
  plan : List S.PlanEntry → SessionUpdate S
  available_commands_update : List S.AvailableCommand → SessionUpdate S
  current_mode_update : String → SessionUpdate S
  config_option_update : List S.SessionConfigOption → SessionUpdate S
  usage_update : UsageReport S → SessionUpdate S
  unknown : SessionUpdate S

pub record SessionModeState (S : Schema) : Type 0 where
  pub current_mode_id : String
  pub available_modes : List S.SessionMode

pub data RequestedMode (S : Schema) : Type 0 where
  form : S.ElicitationSchema → RequestedMode S
  url : String → String → RequestedMode S
  unknown : RequestedMode S

-- A session with the tool call that the agent names, or any other scope.
pub data ElicitationScope : Type 0 where
  session : String → Option String → ElicitationScope
  elsewhere : ElicitationScope

pub record CreateElicitationRequest (S : Schema) : Type 0 where
  pub message : String
  pub mode : RequestedMode S
  pub scope : ElicitationScope
