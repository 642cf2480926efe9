-- ===== src/Server/Sessions/Client.antt =====
-- sessions.rs: `observe_from_client`, the frames on their way from the browser to the agent.
use mjx_acp_agent.Prelude.{
  String, Option, none, some, [], ◌∷◌, ◌++◌, ◌==◌, string_eq, ◌||◌, if◌then◌else◌, Result, ok, err,
}
use mjx_acp_agent.Prelude.Map.{lookup, insert, remove}
use mjx_acp_agent.Core.Frame.{
  RequestId, id_eq, Frame, request, response, notification, ResponsePayload, result, error,
}
use mjx_acp_agent.Core.Frame.Params.{params_as}
use mjx_acp_agent.Core.Method.Agent.{
  session_new, session_fork, session_load, session_resume, session_delete, session_close,
  session_set_config_option, session_prompt,
}
use mjx_acp_agent.Thread.Schema.{Schema}
use mjx_acp_agent.Thread.Model.{
  new, push_user_prompt, ElicitationState, accepted, declined, cancelled,
}
use mjx_acp_agent.Thread.Elicitations.{settle_elicitation}
use mjx_acp_agent.Server.Sessions.Store.{
  SessionStore, Decoders, PromptRequest, ElicitationAction, accept, decline, cancel, given,
  on_entry, on_existing, without,
}

module _ {S : Schema} {E : Type 0} (d : Decoders S E) where
  unfoldable pub load : SessionStore S → RequestId → String → SessionStore S
  load st i s = record st {
    threads = insert s (new S) st.threads;
    pending_elicitations = without s st.pending_elicitations;
    pending_session_states = insert i s st.pending_session_states;
  }

  unfoldable pub start_prompt : SessionStore S → RequestId → PromptRequest S → SessionStore S
  start_prompt st i r = record st {
    threads = on_entry r.session_id (λ t. push_user_prompt t r.prompt) st.threads;
    pending_prompts = insert i r.session_id st.pending_prompts;
  }

  unfoldable pub observe_client_request :
      SessionStore S → Frame → RequestId → String → SessionStore S
  unfolding load start_prompt params_as
  observe_client_request st f i method =
      if method == session_new || method == session_fork
      then record st { pending_session_creations = st.pending_session_creations ++ i ∷ [] }
      else if method == session_load
      then given (params_as d.load_session f) st (λ s. load st i s)
      else if method == session_resume
      then given (params_as d.resume_session f) st
          (λ s. record st { pending_session_states = insert i s st.pending_session_states })
      else if method == session_delete
      then given (params_as d.delete_session f) st
          (λ s. record st { pending_forgets = insert i s st.pending_forgets })
      else if method == session_close
      then given (params_as d.close_session f) st
          (λ s. record st { pending_forgets = insert i s st.pending_forgets })
      else if method == session_set_config_option
      then given (params_as d.set_config_option f) st
          (λ s. record st { pending_config_options = insert i s st.pending_config_options })
      else if method == session_prompt
      then given (params_as d.prompt f) st (λ r. start_prompt st i r)
      else st

  unfoldable pub read_action : ElicitationAction S → ElicitationState × Option S.ElicitationContent
  read_action (accept content) = (accepted, content)
  read_action decline = (declined, none)
  read_action cancel = (cancelled, none)
  read_action ElicitationAction.unknown = (cancelled, none)

  read_answer : Result (ElicitationAction S) E → ElicitationState × Option S.ElicitationContent
  unfolding read_action
  read_answer (ok action) = read_action action
  read_answer (err e) = (cancelled, none)

  unfoldable pub read_payload : ResponsePayload → ElicitationState × Option S.ElicitationContent
  unfolding read_answer
  read_payload (result r) = read_answer (d.create_elicitation_response r)
  read_payload (error e) = (declined, none)

  unfoldable pub answer :
      SessionStore S → RequestId → Option String → ResponsePayload → SessionStore S
  unfolding read_payload
  answer st i none payload = st
  answer st i (some s) payload =
      let (state, content) = read_payload payload in
      record st {
        pending_elicitations = remove i st.pending_elicitations;
        threads = on_existing s (λ t. (settle_elicitation t i state content).0) st.threads;
      }

  unfoldable pub observe_elicitation_answer :
      SessionStore S → RequestId → ResponsePayload → SessionStore S
  unfolding answer
  observe_elicitation_answer st i payload = answer st i (lookup i st.pending_elicitations) payload

  unfoldable pub observe_from_client : SessionStore S → Frame → SessionStore S
  unfolding observe_client_request observe_elicitation_answer
  observe_from_client st (request i method params) =
      observe_client_request st (request i method params) i method
  observe_from_client st (response i payload) = observe_elicitation_answer st i payload
  observe_from_client st (notification method params) = st
