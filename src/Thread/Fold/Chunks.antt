-- ===== src/Thread/Fold/Chunks.antt =====
-- fold.rs: `push_user_chunk` and `push_assistant_chunk`.
pub mod Text
pub mod Echo
use mjx_acp_agent.Prelude.{
  ℕ, ◌-◌, String, Option, none, some, List, [], ◌∷◌, ◌++◌, Bool, true, false, ◌&&◌, not, any,
  get_last?, set_last, length, if◌then◌else◌,
}
use mjx_acp_agent.Thread.Schema.{Schema, ContentBlock}
use mjx_acp_agent.Thread.Model.{
  Thread, Entry, user, assistant, UserMessage, AssistantMessage, AssistantChunk, ChunkKind, message,
  thought, mint_id, can_merge_message_chunks,
}
use mjx_acp_agent.Thread.Fold.Blocks.{same_block, append_content}

pub data ThreadEvent : Type 0 where
  entry_added entry_updated : ℕ → ThreadEvent
  plan_updated commands_updated mode_updated config_options_updated usage_updated : ThreadEvent

-- `if id.is_none() { id = incoming }`
abbrev pub label : Option String → Option String → Option String
label (some i) incoming = some i
label none incoming = incoming

abbrev pub kind_beq : ChunkKind → ChunkKind → Bool
kind_beq message message = true
kind_beq thought thought = true
kind_beq _ _ = false

module _ {S : Schema} where
  abbrev pub last_user : Option (Entry S) → Option (UserMessage S)
  last_user (some (user m)) = some m
  last_user _ = none

  abbrev pub last_assistant : Option (Entry S) → Option (AssistantMessage S)
  last_assistant (some (assistant m)) = some m
  last_assistant _ = none

  -- The entry goes to the end.
  abbrev pub push_entry : Thread S → Entry S → Thread S × List ThreadEvent
  push_entry t e = (
    record t { entries = t.entries ++ e ∷ [] },
    entry_added (length (t.entries ++ e ∷ []) - 1) ∷ [],
  )

  start_user : Thread S → ContentBlock S → Option String → Thread S × List ThreadEvent
  unfolding mint_id
  start_user t content message_id =
      let (t', id) = mint_id t "user" in
      push_entry t' (
        user (record {
          id = id;
          protocol_id = message_id;
          is_optimistic = false;
          content = content ∷ [];
        }))

  unfoldable pub is_echo : UserMessage S → ContentBlock S → Option String → Bool
  is_echo m content message_id =
      m.is_optimistic
      && (any (λ block. same_block block content) m.content
          && can_merge_message_chunks m.protocol_id message_id)

  after_user :
      Thread S
      → Option (UserMessage S)
      → ContentBlock S
      → Option String
      → Thread S × List ThreadEvent
  unfolding start_user
  after_user t none content message_id = start_user t content message_id
  after_user t (some m) content message_id =
      if is_echo m content message_id
      then (
        record t {
          entries =
              set_last t.entries (user (record m { protocol_id = label m.protocol_id message_id }));
        },
        [],
      )
      else if not m.is_optimistic && can_merge_message_chunks m.protocol_id message_id
      then (
        record t {
          entries = set_last t.entries (user (record m { content = m.content ++ content ∷ [] }));
        },
        entry_updated (length t.entries - 1) ∷ [],
      )
      else start_user t content message_id

  unfoldable pub push_user_chunk :
      Thread S → ContentBlock S → Option String → Thread S × List ThreadEvent
  unfolding after_user
  push_user_chunk t content message_id =
      after_user t (last_user (get_last? t.entries)) content message_id

  abbrev pub new_chunk : ChunkKind → ContentBlock S → Option String → AssistantChunk S
  new_chunk kind content message_id = record {
    kind = kind;
    id = message_id;
    content = content ∷ [];
  }

  -- The chunks of the last assistant entry with the new content.
  unfoldable pub extend_chunks :
      List (AssistantChunk S)
      → Option (AssistantChunk S)
      → ChunkKind
      → ContentBlock S
      → Option String
      → List (AssistantChunk S)
  extend_chunks chunks none kind content message_id =
      chunks ++ new_chunk kind content message_id ∷ []
  extend_chunks chunks (some c) kind content message_id =
      if kind_beq c.kind kind && can_merge_message_chunks c.id message_id
      then set_last chunks
          (record c { id = label c.id message_id; content = append_content c.content content })
      else chunks ++ new_chunk kind content message_id ∷ []

  after_assistant :
      Thread S
      → Option (AssistantMessage S)
      → ChunkKind
      → ContentBlock S
      → Option String
      → Thread S × List ThreadEvent
  unfolding mint_id extend_chunks
  after_assistant t none kind content message_id =
      let (t', id) = mint_id t "assistant" in
      push_entry t'
        (assistant (record { id = id; chunks = new_chunk kind content message_id ∷ [] }))
  after_assistant t (some m) kind content message_id = (
    record t {
      entries = set_last t.entries (
          assistant (record m {
            chunks = extend_chunks m.chunks (get_last? m.chunks) kind content message_id;
          }));
    },
    entry_updated (length t.entries - 1) ∷ [],
  )

  unfoldable pub push_assistant_chunk :
      Thread S → ChunkKind → ContentBlock S → Option String → Thread S × List ThreadEvent
  unfolding after_assistant
  push_assistant_chunk t kind content message_id =
      after_assistant t (last_assistant (get_last? t.entries)) kind content message_id
