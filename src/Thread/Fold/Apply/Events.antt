-- ===== src/Thread/Fold/Apply/Events.antt =====
-- What the events that `apply` returns say of the entries.
use mjx_acp_agent.Prelude.{
  ℕ, suc, ◌-◌, ◌<◌, String, Option, none, some, List, [], ◌∷◌, ◌++◌, get_elem?, set, set_last, not,
  ◌&&◌, get_last?, length, length-append, ◌≡◌, ◌≢◌, ◌⊎◌, true, refl, arith, inl, inr, Option-cases,
  Bool-cases,
}
use mjx_acp_agent.Prelude.Ends.{
  length-set_last, get_elem?-set_last, get_elem?-append, length-set, get_elem?-set_ne,
}
use mjx_acp_agent.Thread.Schema.{
  Schema, ContentBlock, SessionUpdate, ToolCallNotice, ToolCallUpdate, user_message_chunk,
  agent_message_chunk, agent_thought_chunk, tool_call_update, plan, available_commands_update,
  current_mode_update, config_option_update, usage_update,
}
use mjx_acp_agent.Thread.Model.{
  user, can_merge_message_chunks, Thread, Entry, UserMessage, AssistantMessage, ChunkKind, message,
  thought, Modes,
}
use mjx_acp_agent.Thread.Fold.Chunks.{
  ThreadEvent, entry_added, entry_updated, push_user_chunk, is_echo, push_assistant_chunk,
  last_user, last_assistant,
}
use mjx_acp_agent.Thread.Fold.ToolCalls.{update_tool_call, upsert_tool_call, index_of_tool_call}
use mjx_acp_agent.Thread.Fold.ToolCalls.Lookup.{position-cases, position-get, position-lt}
use mjx_acp_agent.Thread.Fold.Apply.{apply}

module _ {S : Schema} where
  -- `entry_added n`: the entries are the old ones and one at index `n`. `entry_updated n`: the entry at
  -- index `n` is the only one that may differ. Another event: the entries are the old ones. No event: the
  -- entries are the old ones, but that the last one, where it is a prompt that waits for its echo, may have
  -- been given a protocol id.
  abbrev pub Reports : List (Entry S) → List (Entry S) → List ThreadEvent → Type 0
  Reports es es' [] =
      (es' ≡ es)
      ⊎ ((m : UserMessage S) × (p : Option String) × (last_user (get_last? es) ≡ some m)
          × (m.is_optimistic ≡ true)
          × (es' ≡ set_last es (user (record m { protocol_id = p }))))
  Reports es es' (entry_added n ∷ []) =
      (n ≡ length es) × (length es' ≡ suc n) × ((j : ℕ) → j < n → get_elem? es' j ≡ get_elem? es j)
  Reports es es' (entry_updated n ∷ []) =
      (n < length es)
      × (length es' ≡ length es)
      × ((j : ℕ) → n ≢ j → get_elem? es' j ≡ get_elem? es j)
  Reports es es' (e ∷ []) = es' ≡ es
  Reports es es' _ = ⊥

  pushed :
      (es : List (Entry S)) (e : Entry S)
      → Reports es (es ++ e ∷ []) (entry_added (length (es ++ e ∷ []) - 1) ∷ [])
  pushed es e = (
    omega (arith, length-append es (e ∷ [])),
    omega (arith, length-append es (e ∷ [])),
    λ j h. get_elem?-append es e j (omega (arith, length-append es (e ∷ []))),
  )

  rewritten :
      (es : List (Entry S)) (e : Entry S)
      → 0 < length es
      → Reports es (set_last es e) (entry_updated (length es - 1) ∷ [])
  rewritten es e h =
      (omega arith, length-set_last es e, λ j ne. get_elem?-set_last es e j (λ p. ne (omega arith)))

  written :
      (es : List (Entry S)) (n : ℕ) (e : Entry S)
      → n < length es
      → Reports es (set es n e) (entry_updated n ∷ [])
  written es n e h = (h, length-set es n e, λ j ne. get_elem?-set_ne es n j e ne)

  user_pos :
      (es : List (Entry S)) {m : UserMessage S} → last_user (get_last? es) ≡ some m → 0 < length es
  user_pos [] h = cc
  user_pos (e ∷ es) h = omega arith

  assistant_pos :
      (es : List (Entry S)) {m : AssistantMessage S}
      → last_assistant (get_last? es) ≡ some m
      → 0 < length es
  assistant_pos [] h = cc
  assistant_pos (e ∷ es) h = omega arith

  echo-optimistic :
      (m : UserMessage S) (b : ContentBlock S) (i : Option String)
      → is_echo m b i ≡ true
      → m.is_optimistic ≡ true
  unfolding is_echo
  echo-optimistic m b i h = ground (arith, h)

  user-Reports :
      (t : Thread S) (b : ContentBlock S) (i : Option String)
      → Reports t.entries (push_user_chunk t b i).0.entries (push_user_chunk t b i).1
  unfolding push_user_chunk
  user-Reports t b i = elim (Option-cases (last_user (get_last? t.entries))) [
    | inl e ↦ rw (e, push_user_chunk) (pushed t.entries _)
    | inr (m, e) ↦ elim (Bool-cases (is_echo m b i)) [
      | inl echo ↦ rw (e, push_user_chunk, echo) (inr (m, _, e, echo-optimistic m b i echo, refl))
      | inr fresh ↦
          elim (Bool-cases (not m.is_optimistic && can_merge_message_chunks m.protocol_id i)) [
            | inl extends ↦
                rw (e, push_user_chunk, fresh, extends)
                  (rewritten t.entries _ (user_pos t.entries e))
            | inr apart ↦ rw (e, push_user_chunk, fresh, apart) (pushed t.entries _)
          ]
    ]
  ]

  assistant-Reports :
      (t : Thread S) (k : ChunkKind) (b : ContentBlock S) (i : Option String)
      → Reports t.entries (push_assistant_chunk t k b i).0.entries (push_assistant_chunk t k b i).1
  unfolding push_assistant_chunk
  assistant-Reports t k b i = elim (Option-cases (last_assistant (get_last? t.entries))) [
    | inl e ↦ rw (e, push_assistant_chunk) (pushed t.entries _)
    | inr (m, e) ↦ rw (e, push_assistant_chunk) (rewritten t.entries _ (assistant_pos t.entries e))
  ]

  upsert-Reports :
      (t : Thread S) (call : ToolCallNotice S)
      → Reports t.entries (upsert_tool_call t call).0.entries (upsert_tool_call t call).1
  unfolding upsert_tool_call index_of_tool_call
  upsert-Reports t call = elim (position-cases call.tool_call_id t.entries) [
    | inl (p, f) ↦ rw (p, upsert_tool_call) (pushed t.entries _)
    | inr (n, c, p, f) ↦ rw (p, upsert_tool_call) (written t.entries n _ (position-lt f))
  ]

  update-Reports :
      (t : Thread S) (u : ToolCallUpdate S)
      → Reports t.entries (update_tool_call t u).0.entries (update_tool_call t u).1
  unfolding update_tool_call index_of_tool_call
  update-Reports t u = elim (position-cases u.tool_call_id t.entries) [
    | inl (p, f) ↦ rw (p, update_tool_call) (pushed t.entries _)
    | inr (n, c, p, f) ↦
        rw (p, update_tool_call, position-get f) (written t.entries n _ (position-lt f))
  ]

  mode-Reports :
      (t : Thread S) (i : String) (o : Option (Modes S))
      → t.modes ≡ o
      → Reports t.entries
          (apply t (current_mode_update i)).0.entries
          (apply t (current_mode_update i)).1
  unfolding apply
  mode-Reports t i none e = rw (e, apply) (inl refl)
  mode-Reports t i (some m) e = rw (e, apply) refl

  -- The events of every update account for what it changes in the timeline: an added entry is the new last one, behind
  -- the old ones; an updated entry is the only one that may differ; and an update without such an event changes no entry,
  -- except that the echo of a prompt may give the prompt a protocol id.
  pub apply-Reports :
      (t : Thread S) (u : SessionUpdate S) → Reports t.entries (apply t u).0.entries (apply t u).1
  unfolding apply
  apply-Reports t (user_message_chunk c) = user-Reports t c.content c.message_id
  apply-Reports t (agent_message_chunk c) = assistant-Reports t message c.content c.message_id
  apply-Reports t (agent_thought_chunk c) = assistant-Reports t thought c.content c.message_id
  apply-Reports t (SessionUpdate.tool_call c) = upsert-Reports t c
  apply-Reports t (tool_call_update u) = update-Reports t u
  apply-Reports t (plan es) = refl
  apply-Reports t (available_commands_update cs) = refl
  apply-Reports t (current_mode_update i) = mode-Reports t i t.modes refl
  apply-Reports t (config_option_update os) = refl
  apply-Reports t (usage_update u) = refl
  apply-Reports t SessionUpdate.unknown = inl refl
