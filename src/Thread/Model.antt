-- ===== src/Thread/Model.antt =====
-- crates/mjx-acp-thread/src/lib.rs: the thread and the operations on it but the elicitations'.
use mjx_acp_agent.Prelude.{
  ℕ, suc, String, Option, none, some, List, [], ◌∷◌, ◌++◌, Bool, true, ◌==◌, string_eq, get_last?,
  if◌then◌else◌,
}
use mjx_acp_agent.Prelude.Decimal.{display}
use Prim.Native.String.{◌++◌ as str_append}
use mjx_acp_agent.Core.Frame.{RequestId}
use mjx_acp_agent.Thread.Schema.{Schema, ContentBlock, text, SessionModeState}

pub record UserMessage (S : Schema) : Type 0 where
  pub id : String
  pub protocol_id : Option String
  pub is_optimistic : Bool
  pub content : List (ContentBlock S)

pub data ChunkKind : Type 0 where
  message thought : ChunkKind

pub record AssistantChunk (S : Schema) : Type 0 where
  pub kind : ChunkKind
  pub id : Option String
  pub content : List (ContentBlock S)

pub record AssistantMessage (S : Schema) : Type 0 where
  pub id : String
  pub chunks : List (AssistantChunk S)

pub record ToolCall (S : Schema) : Type 0 where
  pub id : String
  pub title : String
  pub kind : S.ToolKind
  pub status : S.ToolCallStatus
  pub content : List S.ToolCallContent
  pub locations : List S.ToolCallLocation
  pub raw_input : Option S.Json
  pub raw_output : Option S.Json

pub data ElicitationMode (S : Schema) : Type 0 where
  form : S.ElicitationSchema → ElicitationMode S
  url : String → String → ElicitationMode S

pub data ElicitationState : Type 0 where
  pending accepted declined cancelled : ElicitationState

pub record Elicitation (S : Schema) : Type 0 where
  pub id : String
  pub request_id : RequestId
  pub message : String
  pub tool_call_id : Option String
  pub mode : ElicitationMode S
  pub state : ElicitationState
  pub content : Option S.ElicitationContent

pub data Entry (S : Schema) : Type 0 where
  user : UserMessage S → Entry S
  assistant : AssistantMessage S → Entry S
  tool_call : ToolCall S → Entry S
  elicitation : Elicitation S → Entry S

pub data ThreadStatus : Type 0 where
  idle generating : ThreadStatus

-- `cost` is the amount and its currency.
pub record Usage (S : Schema) : Type 0 where
  pub used : ℕ
  pub size : ℕ
  pub cost : Option (S.Amount × String)

pub record Modes (S : Schema) : Type 0 where
  pub current_mode_id : String
  pub available_modes : List S.SessionMode

-- `next_id` is a `usize`, which no run brings to its end.
pub record Thread (S : Schema) : Type 0 where
  pub entries : List (Entry S)
  pub plan : List S.PlanEntry
  pub status : ThreadStatus
  pub stop_reason : Option S.StopReason
  pub usage : Option (Usage S)
  pub available_commands : List S.AvailableCommand
  pub modes : Option (Modes S)
  pub config_options : List S.SessionConfigOption
  pub next_id : ℕ

abbrev pub new : (S : Schema) → Thread S
new S = record {
  entries = [];
  plan = [];
  status = idle;
  stop_reason = none;
  usage = none;
  available_commands = [];
  modes = none;
  config_options = [];
  next_id = 0;
}

module _ {S : Schema} where
  abbrev pub as_tool_call : Entry S → Option (ToolCall S)
  as_tool_call (tool_call c) = some c
  as_tool_call _ = none

  abbrev pub as_elicitation : Entry S → Option (Elicitation S)
  as_elicitation (elicitation a) = some a
  as_elicitation _ = none

  unfoldable pub entry_id : Entry S → String
  entry_id (user m) = m.id
  entry_id (assistant m) = m.id
  entry_id (tool_call c) = c.id
  entry_id (elicitation a) = a.id

  -- A chunk's text: that of its text blocks.
  unfoldable pub blocks_text : List (ContentBlock S) → String
  blocks_text [] = ""
  blocks_text (text s x ∷ bs) = str_append s (blocks_text bs)
  blocks_text (_ ∷ bs) = blocks_text bs

  unfoldable pub chunk_text : AssistantChunk S → String
  unfolding blocks_text
  chunk_text c = blocks_text c.content

  abbrev pub last : Thread S → Option (Entry S)
  last t = get_last? t.entries

  unfoldable pub find_tool_call : String → List (Entry S) → Option (ToolCall S)
  find_tool_call i [] = none
  find_tool_call i (tool_call c ∷ es) =
      let rest = find_tool_call i es in if c.id == i then some c else rest
  find_tool_call i (_ ∷ es) = find_tool_call i es

  -- `Thread::tool_call`
  unfoldable pub tool_call? : Thread S → String → Option (ToolCall S)
  unfolding find_tool_call
  tool_call? t i = find_tool_call i t.entries

  -- The new counter, and the id.
  unfoldable pub mint_id : Thread S → String → Thread S × String
  mint_id t prefix = (
    record t { next_id = suc t.next_id },
    str_append prefix (str_append "-" (display (suc t.next_id))),
  )

  unfoldable pub push_user_prompt : Thread S → List (ContentBlock S) → Thread S
  unfolding mint_id
  push_user_prompt t content =
      let (t', id) = mint_id t "user" in
      record t' {
        status = generating;
        stop_reason = none;
        entries =
            t.entries
            ++ user
                (record { id = id; protocol_id = none; is_optimistic = true; content = content })
              ∷ [];
      }

  unfoldable pub finish_turn : Thread S → S.StopReason → Thread S
  finish_turn t reason = record t { status = idle; stop_reason = some reason }

  unfoldable pub set_modes : Thread S → SessionModeState S → Thread S
  set_modes t state = record t {
    modes = some (record {
      current_mode_id = state.current_mode_id;
      available_modes = state.available_modes;
    });
  }

  unfoldable pub set_config_options : Thread S → List S.SessionConfigOption → Thread S
  set_config_options t options = record t { config_options = options }

-- Whether two chunks belong to the same message.
abbrev pub can_merge_message_chunks : Option String → Option String → Bool
can_merge_message_chunks (some existing) (some incoming) = existing == incoming
can_merge_message_chunks none _ = true
can_merge_message_chunks (some existing) none = true
