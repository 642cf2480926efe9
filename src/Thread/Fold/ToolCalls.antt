-- ===== src/Thread/Fold/ToolCalls.antt =====
-- fold.rs: `upsert_tool_call` and `update_tool_call`.
pub mod Lookup
use mjx_acp_agent.Prelude.{
  ℕ, zero, suc, String, Option, none, some, List, [], ◌∷◌, ◌++◌, Bool, true, false, ◌==◌, string_eq,
  get_elem?, set, length, if◌then◌else◌,
}
use mjx_acp_agent.Thread.Schema.{Schema, ToolCallNotice, ToolCallUpdate, ToolCallFields}
use mjx_acp_agent.Thread.Model.{Thread, Entry, tool_call, ToolCall}
use mjx_acp_agent.Thread.Fold.Chunks.{ThreadEvent, entry_updated, entry_added, push_entry}

abbrev pub or_default {ℓ} : {A : Type ℓ} → A → Option A → A
or_default d none = d
or_default d (some a) = a

-- `if given.is_some() { field = given }` on a field that is itself optional.
abbrev pub or_else {ℓ} : {A : Type ℓ} → Option A → Option A → Option A
or_else field none = field
or_else field (some a) = some a

module _ {S : Schema} where
  abbrev pub is_call : String → Entry S → Bool
  is_call i (tool_call c) = c.id == i
  is_call i _ = false

  -- `position`, from the index of the first entry given.
  unfoldable pub position : String → List (Entry S) → Option ℕ
  position i [] = none
  position i (e ∷ es) =
      let rest = elim (position i es) as (λ _. Option ℕ) [ none ↦ none | some n ↦ some (suc n) ] in
      if is_call i e then some 0 else rest

  unfoldable pub index_of_tool_call : Thread S → String → Option ℕ
  unfolding position
  index_of_tool_call t i = position i t.entries

  unfoldable pub announced : ToolCallNotice S → ToolCall S
  announced call = record {
    id = call.tool_call_id;
    title = call.title;
    kind = call.kind;
    status = call.status;
    content = call.content;
    locations = call.locations;
    raw_input = call.raw_input;
    raw_output = call.raw_output;
  }

  upsert_at : Thread S → Option ℕ → ToolCall S → Thread S × List ThreadEvent
  upsert_at t (some index) incoming =
      (record t { entries = set t.entries index (tool_call incoming) }, entry_updated index ∷ [])
  upsert_at t none incoming = push_entry t (tool_call incoming)

  unfoldable pub upsert_tool_call : Thread S → ToolCallNotice S → Thread S × List ThreadEvent
  unfolding upsert_at announced
  upsert_tool_call t call = upsert_at t (index_of_tool_call t call.tool_call_id) (announced call)

  -- The call that an update for an unseen id stands for.
  unfoldable pub unseen : ToolCallUpdate S → ToolCall S
  unseen u = record {
    id = u.tool_call_id;
    title = or_default "" u.fields.title;
    kind = or_default S.default_kind u.fields.kind;
    status = or_default S.default_status u.fields.status;
    content = or_default [] u.fields.content;
    locations = or_default [] u.fields.locations;
    raw_input = u.fields.raw_input;
    raw_output = u.fields.raw_output;
  }

  -- The fields that an update gives, written over a call.
  unfoldable pub merge : ToolCallFields S → ToolCall S → ToolCall S
  merge f c = record c {
    title = or_default c.title f.title;
    kind = or_default c.kind f.kind;
    status = or_default c.status f.status;
    content = or_default c.content f.content;
    locations = or_default c.locations f.locations;
    raw_input = or_else c.raw_input f.raw_input;
    raw_output = or_else c.raw_output f.raw_output;
  }

  -- The last clause is the `unreachable!`; `position-get` shows that no thread comes to it.
  update_at : Thread S → ℕ → Option (Entry S) → ToolCallUpdate S → Thread S × List ThreadEvent
  unfolding merge
  update_at t index (some (tool_call c)) u = (
    record t { entries = set t.entries index (tool_call (merge u.fields c)) },
    entry_updated index ∷ [],
  )
  update_at t index _ u = (t, [])

  update_found : Thread S → Option ℕ → ToolCallUpdate S → Thread S × List ThreadEvent
  unfolding update_at unseen
  update_found t none u = push_entry t (tool_call (unseen u))
  update_found t (some index) u = update_at t index (get_elem? t.entries index) u

  unfoldable pub update_tool_call : Thread S → ToolCallUpdate S → Thread S × List ThreadEvent
  unfolding update_found
  update_tool_call t u = update_found t (index_of_tool_call t u.tool_call_id) u
