-- ===== src/Tests/Thread.antt =====
-- The theorems on the thread crate at concrete inputs.
use mjx_acp_agent.Thread.Fold.Blocks.{same_block}
use Prim.Native.String.{◌++◌ as str_append}
use mjx_acp_agent.Thread.Fold.Chunks.{push_assistant_chunk}
use mjx_acp_agent.Core.Frame.{number}
use mjx_acp_agent.Thread.Fold.Apply.{apply}
use mjx_acp_agent.Tests.Data.{words, acp}
use mjx_acp_agent.Thread.Elicitations.{settle_elicitation}
use mjx_acp_agent.Thread.Elicitations.Lifecycle.{pending_that, settle_elicitation_lem, WroteFirst}
use mjx_acp_agent.Thread.Fold.Apply.Events.{apply-Reports, Reports}
use mjx_acp_agent.Thread.Model.{
  declined, elicitation, mint_id, pending, ElicitationMode, Entry, new, message, push_user_prompt,
  Elicitation, Thread, ToolCall,
}
use mjx_acp_agent.Thread.Schema.{tool_call_update, ToolCallUpdate, ToolCallNotice}
use mjx_acp_agent.Thread.Fold.Chunks.Text.{push_assistant_chunk-text, said, entries_text}
use mjx_acp_agent.Thread.Fold.Chunks.Echo.{AllIn, prompt_echo, echo}
use mjx_acp_agent.Core.Frame.{id_eq}
use mjx_acp_agent.Prelude.{
  ◌==◌, any, false, ◌++◌, ◌⊎◌, Bool, pos, some, none, [], ◌∷◌, ◌≡◌, refl, true, string_eq,
}

abbrev waiting_question : Elicitation acp
waiting_question = record {
  id = "elicitation-1";
  request_id = number (pos 3);
  message = "which?";
  tool_call_id = none;
  mode = ElicitationMode.form "{}";
  state = pending;
  content = none;
}

abbrev shell : ToolCall acp
shell = record {
  id = "c1";
  title = "ls";
  kind = "execute";
  status = "in_progress";
  content = "old" ∷ [];
  locations = [];
  raw_input = none;
  raw_output = none;
}

abbrev busy : Thread acp
busy = record (new acp) {
  entries = Entry.tool_call shell ∷ elicitation waiting_question ∷ [];
  next_id = 1;
}

abbrev completed : ToolCallUpdate acp
completed = record {
  tool_call_id = "c1";
  fields = record {
    title = none;
    kind = none;
    status = some "completed";
    content = none;
    locations = none;
    raw_input = none;
    raw_output = some "0";
  };
}

abbrev notice : ToolCallNotice acp
notice = record {
  tool_call_id = "c2";
  title = "cat";
  kind = "read";
  status = "pending";
  content = [];
  locations = [];
  raw_input = none;
  raw_output = none;
}

apply-Reports_example :
    Reports busy.entries
      (apply busy (tool_call_update completed)).0.entries
      (apply busy (tool_call_update completed)).1
apply-Reports_example = apply-Reports busy (tool_call_update completed)

push_assistant_chunk-text_example :
    entries_text message (push_assistant_chunk busy message (words "hi") none).0.entries
    ≡ str_append (entries_text message busy.entries) (said message message (words "hi"))
push_assistant_chunk-text_example = push_assistant_chunk-text message message busy (words "hi") none

ba_in_ab : AllIn (words "a" ∷ words "b" ∷ []) (words "b" ∷ words "a" ∷ [])
unfolding same_block
ba_in_ab = (refl, (refl, tt))

prompt_echo_example :
    echo
      (push_user_prompt busy (words "a" ∷ words "b" ∷ []))
      (words "b" ∷ words "a" ∷ [])
      (some "m1")
    ≡ (
      record (push_user_prompt busy (words "a" ∷ words "b" ∷ [])) {
        entries =
            busy.entries
            ++ Entry.user (record {
              id = (mint_id busy "user").1;
              protocol_id = some "m1";
              is_optimistic = true;
              content = words "a" ∷ words "b" ∷ [];
            })
              ∷ [];
      },
      [],
    )
prompt_echo_example =
    prompt_echo busy (words "a" ∷ words "b" ∷ []) (words "b" ∷ words "a" ∷ []) (some "m1") ba_in_ab

abbrev answered : Thread acp × Bool
answered = settle_elicitation busy (number (pos 3)) declined none

settle_elicitation_lem_example :
    (answered.1 ≡ any (pending_that (λ a. a.request_id == number (pos 3))) busy.entries)
    × (((answered.1 ≡ true)
          × (answered.0 ≡ record busy { entries = answered.0.entries })
          × WroteFirst
              (λ a. a.request_id == number (pos 3))
              (λ a. record a { state = declined; content = none })
              busy.entries
              answered.0.entries)
        ⊎ ((answered.1 ≡ false) × (answered.0 ≡ busy)))
settle_elicitation_lem_example = settle_elicitation_lem busy (number (pos 3)) declined none
