-- ===== src/Thread/Fold/Apply.antt =====
-- fold.rs: `Thread::apply`, the one entry of a `session/update`.
pub mod Events
use mjx_acp_agent.Prelude.{Option, none, some, List, [], ◌∷◌}
use mjx_acp_agent.Thread.Schema.{
  Schema, SessionUpdate, user_message_chunk, agent_message_chunk, agent_thought_chunk, tool_call,
  tool_call_update, plan, available_commands_update, current_mode_update, config_option_update,
  usage_update,
}
use mjx_acp_agent.Thread.Model.{Thread, Modes, message, thought}
use mjx_acp_agent.Thread.Fold.Chunks.{
  ThreadEvent, plan_updated, commands_updated, mode_updated, config_options_updated, usage_updated,
  push_user_chunk, push_assistant_chunk,
}
use mjx_acp_agent.Thread.Fold.ToolCalls.{upsert_tool_call, update_tool_call}
use Prim.Native.String.{String}

module _ {S : Schema} where
  select_mode : Thread S → Option (Modes S) → String → Thread S × List ThreadEvent
  select_mode t none i = (t, [])
  select_mode t (some m) i =
      (record t { modes = some (record m { current_mode_id = i }) }, mode_updated ∷ [])

  unfoldable pub apply : Thread S → SessionUpdate S → Thread S × List ThreadEvent
  unfolding select_mode
  apply t (user_message_chunk chunk) = push_user_chunk t chunk.content chunk.message_id
  apply t (agent_message_chunk chunk) =
      push_assistant_chunk t message chunk.content chunk.message_id
  apply t (agent_thought_chunk chunk) =
      push_assistant_chunk t thought chunk.content chunk.message_id
  apply t (tool_call call) = upsert_tool_call t call
  apply t (tool_call_update update) = update_tool_call t update
  apply t (plan entries) = (record t { plan = entries }, plan_updated ∷ [])
  apply t (available_commands_update commands) =
      (record t { available_commands = commands }, commands_updated ∷ [])
  apply t (current_mode_update i) = select_mode t t.modes i
  apply t (config_option_update options) =
      (record t { config_options = options }, config_options_updated ∷ [])
  apply t (usage_update u) = (
    record t { usage = some (record { used = u.used; size = u.size; cost = u.cost }) },
    usage_updated ∷ [],
  )
  apply t SessionUpdate.unknown = (t, [])
