-- ===== src/Thread/Elicitations.antt =====
-- The elicitations of crates/mjx-acp-thread/src/lib.rs.
pub mod Lifecycle
use mjx_acp_agent.Prelude.{
  ℕ, zero, suc, String, Option, none, some, List, [], ◌∷◌, ◌++◌, Bool, true, false, ◌==◌, string_eq,
  ◌&&◌, if◌then◌else◌, PartialEq,
}
use mjx_acp_agent.Core.Frame.{RequestId, id_eq}
use mjx_acp_agent.Thread.Schema.{
  Schema, RequestedMode, ElicitationScope, session, elsewhere, CreateElicitationRequest,
}
use mjx_acp_agent.Thread.Model.{
  Thread, Entry, elicitation, Elicitation, ElicitationMode, ElicitationState, pending, accepted,
  declined, cancelled, mint_id,
}

abbrev pub is_pending : ElicitationState → Bool
is_pending pending = true
is_pending _ = false

abbrev pub scope_tool_call : ElicitationScope → Option String
scope_tool_call (session s c) = c
scope_tool_call elsewhere = none

module _ {S : Schema} where
  unfoldable pub read_mode : RequestedMode S → Option (ElicitationMode S)
  read_mode (RequestedMode.form schema) = some (ElicitationMode.form schema)
  read_mode (RequestedMode.url i u) = some (ElicitationMode.url i u)
  read_mode RequestedMode.unknown = none

  -- The new thread, and whether the question could be modelled.
  unfoldable pub push_elicitation :
      Thread S → RequestId → CreateElicitationRequest S → Thread S × Bool
  unfolding read_mode mint_id
  push_elicitation t request_id request = elim (read_mode request.mode) [
    | none ↦ (t, false)
    | some mode ↦
        let (t', id) = mint_id t "elicitation" in
        (
          record t' {
            entries =
                t.entries
                ++ elicitation (record {
                  id = id;
                  request_id = request_id;
                  message = request.message;
                  tool_call_id = scope_tool_call request.scope;
                  mode = mode;
                  state = pending;
                  content = none;
                })
                  ∷ [];
          },
          true,
        )
  ]

  abbrev pub behind : Entry S → Option (List (Entry S)) → Option (List (Entry S))
  behind e none = none
  behind e (some es) = some (e ∷ es)

  -- A write to the first of `pending_elicitations` that passes a test, if there is one.
  unfoldable pub write_first :
      (Elicitation S → Bool)
      → (Elicitation S → Elicitation S)
      → List (Entry S)
      → Option (List (Entry S))
  write_first test write [] = none
  write_first test write (elicitation a ∷ es) =
      let rest = behind (elicitation a) (write_first test write es) in
      if is_pending a.state && test a then some (elicitation (write a) ∷ es) else rest
  write_first test write (e ∷ es) = behind e (write_first test write es)

  with_entries : Thread S → Option (List (Entry S)) → Thread S × Bool
  with_entries t none = (t, false)
  with_entries t (some es) = (record t { entries = es }, true)

  unfoldable pub settle_elicitation :
      Thread S → RequestId → ElicitationState → Option S.ElicitationContent → Thread S × Bool
  unfolding with_entries
  settle_elicitation t i state content = with_entries t (
      write_first (λ a. a.request_id == i) (λ a. record a { state = state; content = content })
        t.entries)

  abbrev pub is_url : String → ElicitationMode S → Bool
  is_url i (ElicitationMode.form schema) = false
  is_url i (ElicitationMode.url j u) = j == i

  unfoldable pub complete_elicitation : Thread S → String → Thread S × Bool
  unfolding with_entries
  complete_elicitation t i =
      with_entries t
        (write_first (λ a. is_url i a.mode) (λ a. record a { state = accepted }) t.entries)

  unfoldable pub cancel_entries : List (Entry S) → List (Entry S) × ℕ
  cancel_entries [] = ([], 0)
  cancel_entries (elicitation a ∷ es) =
      let (rest, n) = cancel_entries es in
      if is_pending a.state
      then (elicitation (record a { state = cancelled }) ∷ rest, suc n)
      else (elicitation a ∷ rest, n)
  cancel_entries (e ∷ es) = let (rest, n) = cancel_entries es in (e ∷ rest, n)

  -- The new thread, and how many questions were still waiting.
  unfoldable pub cancel_pending_elicitations : Thread S → Thread S × ℕ
  cancel_pending_elicitations t =
      let (es, n) = cancel_entries t.entries in (record t { entries = es }, n)
