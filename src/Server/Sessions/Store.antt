-- ===== src/Server/Sessions/Store.antt =====
-- sessions.rs: `SessionStore`, its queries, and the readers that serde_json gives it.
use mjx_acp_agent.Prelude.{
  ℕ, String, Option, none, some, List, [], not, ◌==◌, string_eq, length, Result, ok, err,
}
use mjx_acp_agent.Prelude.Map.{Map, lookup, insert, remove, retain}
use mjx_acp_agent.Core.Frame.{RequestId, id_eq}
use mjx_acp_agent.Core.Frame.Params.{Decoder}
use mjx_acp_agent.Thread.Schema.{
  Schema, ContentBlock, SessionUpdate, SessionModeState, CreateElicitationRequest,
}
use mjx_acp_agent.Thread.Model.{Thread, new}
use mjx_acp_agent.Thread.Elicitations.{cancel_pending_elicitations}

-- `CreateElicitationResponse`'s action; `unknown` is one from a later protocol version.
pub data ElicitationAction (S : Schema) : Type 0 where
  accept : Option S.ElicitationContent → ElicitationAction S
  decline cancel unknown : ElicitationAction S

pub record PromptRequest (S : Schema) : Type 0 where
  pub session_id : String
  pub prompt : List (ContentBlock S)

-- The answers to `session/new`, `session/load` and `session/resume`, without the new session's id.
pub record SessionState (S : Schema) : Type 0 where
  pub modes : Option (SessionModeState S)
  pub config_options : Option (List S.SessionConfigOption)

-- serde_json's readers at the types that this file decodes; a request of which only the session id is used
-- reads as that id.
pub record Decoders (S : Schema) (E : Type 0) : Type 0 where
  pub load_session : Decoder E String
  pub resume_session : Decoder E String
  pub delete_session : Decoder E String
  pub close_session : Decoder E String
  pub set_config_option : Decoder E String
  pub prompt : Decoder E (PromptRequest S)
  pub create_elicitation : Decoder E (CreateElicitationRequest S)
  pub complete_elicitation : Decoder E String
  pub session_notification : Decoder E (String × SessionUpdate S)
  pub prompt_response : Decoder E S.StopReason
  pub new_session_response : Decoder E (String × SessionState S)
  pub load_session_response : Decoder E (SessionState S)
  pub set_config_option_response : Decoder E (List S.SessionConfigOption)
  pub create_elicitation_response : Decoder E (ElicitationAction S)

pub record SessionStore (S : Schema) : Type 0 where
  pub threads : Map String (Thread S)
  pub pending_prompts : Map RequestId String
  pub pending_session_creations : List RequestId
  pub pending_session_states : Map RequestId String
  pub pending_forgets : Map RequestId String
  pub pending_config_options : Map RequestId String
  pub pending_elicitations : Map RequestId String

abbrev pub new_store : (S : Schema) → SessionStore S
new_store S = record {
  threads = [];
  pending_prompts = [];
  pending_session_creations = [];
  pending_session_states = [];
  pending_forgets = [];
  pending_config_options = [];
  pending_elicitations = [];
}

-- `let Ok(Some(a)) = r else { return store }`
abbrev pub given {ℓ κ} :
    {A : Type ℓ} {B : Type κ} {E : Type 0} → Result (Option A) E → B → (A → B) → B
given (ok (some a)) b f = f a
given (ok none) b f = b
given (err e) b f = b

-- `retain(|_, pending| pending != s)`
abbrev pub without : String → Map RequestId String → Map RequestId String
without s m = retain (λ p. not (p == s)) m

module _ {S : Schema} where
  unfoldable pub thread : SessionStore S → String → Option (Thread S)
  thread st s = lookup s st.threads

  unfoldable pub len : SessionStore S → ℕ
  len st = length st.threads

  unfoldable pub session_of_prompt : SessionStore S → RequestId → Option String
  session_of_prompt st i = lookup i st.pending_prompts

  abbrev pub thread_or_default : Option (Thread S) → Thread S
  thread_or_default none = new S
  thread_or_default (some t) = t

  -- `threads.entry(s).or_default()`, written through.
  unfoldable pub on_entry :
      String → (Thread S → Thread S) → Map String (Thread S) → Map String (Thread S)
  on_entry s f m = insert s (f (thread_or_default (lookup s m))) m

  write_found :
      String
      → (Thread S → Thread S)
      → Map String (Thread S)
      → Option (Thread S)
      → Map String (Thread S)
  write_found s f m none = m
  write_found s f m (some t) = insert s (f t) m

  -- `threads.get_mut(s)`, written through if there is such a thread.
  unfoldable pub on_existing :
      String → (Thread S → Thread S) → Map String (Thread S) → Map String (Thread S)
  unfolding write_found
  on_existing s f m = write_found s f m (lookup s m)

  cancelled_count : Option (Thread S) → ℕ
  cancelled_count none = 0
  cancelled_count (some t) = (cancel_pending_elicitations t).1

  -- `SessionStore::cancel_pending_elicitations`: the new store, and how many were still pending.
  unfoldable pub cancel_session : SessionStore S → String → SessionStore S × ℕ
  unfolding cancelled_count
  cancel_session st s = (
    record st {
      pending_elicitations = without s st.pending_elicitations;
      threads = on_existing s (λ t. (cancel_pending_elicitations t).0) st.threads;
    },
    cancelled_count (lookup s st.threads),
  )

  unfoldable pub forget : SessionStore S → String → SessionStore S
  forget st s = record st {
    threads = remove s st.threads;
    pending_prompts = without s st.pending_prompts;
    pending_config_options = without s st.pending_config_options;
    pending_elicitations = without s st.pending_elicitations;
  }
