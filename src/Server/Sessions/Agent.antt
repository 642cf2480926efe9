-- ===== src/Server/Sessions/Agent.antt =====
-- sessions.rs: `observe_from_agent`, the frames on their way from the agent to the browser.
use mjx_acp_agent.Prelude.{
  String, Option, none, some, List, [], ◌∷◌, ◌==◌, string_eq, if◌then◌else◌, Result, ok, err,
}
use mjx_acp_agent.Prelude.Map.{Map, lookup, insert, remove}
use mjx_acp_agent.Core.Frame.{
  RequestId, id_eq, Frame, request, response, notification, result, error, RawValue,
}
use mjx_acp_agent.Core.Frame.Params.{params_as}
use mjx_acp_agent.Core.Method.Client.{elicitation_create, elicitation_complete, session_update}
use mjx_acp_agent.Thread.Schema.{
  Schema, CreateElicitationRequest, ElicitationScope, session, elsewhere, SessionModeState,
}
use mjx_acp_agent.Thread.Model.{Thread, finish_turn, set_modes, set_config_options}
use mjx_acp_agent.Thread.Elicitations.{push_elicitation, complete_elicitation}
use mjx_acp_agent.Thread.Fold.Apply.{apply}
use mjx_acp_agent.Server.Sessions.Store.{
  SessionStore, Decoders, SessionState, given, thread_or_default, on_entry, on_existing, forget,
}

module _ {S : Schema} where
  unfoldable pub ask_session :
      SessionStore S → RequestId → CreateElicitationRequest S → ElicitationScope → SessionStore S
  ask_session st i r (session s c) =
      let (t, asked) = push_elicitation (thread_or_default (lookup s st.threads)) i r in
      record st {
        threads = insert s t st.threads;
        pending_elicitations =
            if asked then insert i s st.pending_elicitations else st.pending_elicitations;
      }
  ask_session st i r elsewhere = st

  -- The loop over `values_mut`, in the order of the list: a `HashMap` has none that is documented.
  unfoldable pub complete_in : String → Map String (Thread S) → Map String (Thread S)
  complete_in i [] = []
  complete_in i ((s, t) ∷ m) =
      let rest = complete_in i m in
      let (t', done) = complete_elicitation t i in if done then (s, t') ∷ m else (s, t') ∷ rest

  maybe_modes : Option (SessionModeState S) → Thread S → Thread S
  maybe_modes none t = t
  maybe_modes (some m) t = set_modes t m

  maybe_options : Option (List S.SessionConfigOption) → Thread S → Thread S
  maybe_options none t = t
  maybe_options (some o) t = set_config_options t o

  unfoldable pub take_state : SessionState S → Thread S → Thread S
  unfolding maybe_modes maybe_options
  take_state r t = maybe_options r.config_options (maybe_modes r.modes t)

-- `position` and `remove` of a `Vec`: the first that is `i`, if there is one.
unfoldable pub remove_first : RequestId → List RequestId → Option (List RequestId)
remove_first i [] = none
remove_first i (j ∷ js) =
    let rest = elim (remove_first i js) as (λ _. Option (List RequestId)) [
      | none ↦ none
      | some ks ↦ some (j ∷ ks)
    ] in
    if j == i then some js else rest

unfoldable pub retain_ne : RequestId → List RequestId → List RequestId
retain_ne i [] = []
retain_ne i (j ∷ js) = let rest = retain_ne i js in if j == i then rest else j ∷ rest

module _ {S : Schema} {E : Type 0} (d : Decoders S E) where
  unfoldable pub finish_prompt : SessionStore S → String → Result S.StopReason E → SessionStore S
  finish_prompt st s (ok reason) = record st {
    threads = on_existing s (λ t. finish_turn t reason) st.threads;
  }
  finish_prompt st s (err e) = st

  unfoldable pub created : SessionStore S → Result (String × SessionState S) E → SessionStore S
  created st (ok (s, r)) = record st { threads = on_entry s (take_state r) st.threads }
  created st (err e) = st

  unfoldable pub stated : SessionStore S → String → Result (SessionState S) E → SessionStore S
  stated st s (ok r) = record st { threads = on_existing s (take_state r) st.threads }
  stated st s (err e) = st

  unfoldable pub configured :
      SessionStore S → String → Result (List S.SessionConfigOption) E → SessionStore S
  configured st s (ok options) = record st {
    threads = on_existing s (λ t. set_config_options t options) st.threads;
  }
  configured st s (err e) = st

  unfoldable pub if_config : SessionStore S → RequestId → RawValue → Option String → SessionStore S
  unfolding configured
  if_config st i r none = st
  if_config st i r (some s) =
      configured (record st { pending_config_options = remove i st.pending_config_options }) s
        (d.set_config_option_response r)

  unfoldable pub if_forget : SessionStore S → RequestId → RawValue → Option String → SessionStore S
  unfolding if_config
  if_forget st i r none = if_config st i r (lookup i st.pending_config_options)
  if_forget st i r (some s) = forget (record st { pending_forgets = remove i st.pending_forgets }) s

  unfoldable pub if_state : SessionStore S → RequestId → RawValue → Option String → SessionStore S
  unfolding if_forget stated
  if_state st i r none = if_forget st i r (lookup i st.pending_forgets)
  if_state st i r (some s) =
      stated (record st { pending_session_states = remove i st.pending_session_states }) s
        (d.load_session_response r)

  unfoldable pub if_creation :
      SessionStore S → RequestId → RawValue → Option (List RequestId) → SessionStore S
  unfolding if_state created
  if_creation st i r none = if_state st i r (lookup i st.pending_session_states)
  if_creation st i r (some rest) =
      created (record st { pending_session_creations = rest }) (d.new_session_response r)

  unfoldable pub if_prompt : SessionStore S → RequestId → RawValue → Option String → SessionStore S
  unfolding if_creation finish_prompt
  if_prompt st i r none = if_creation st i r (remove_first i st.pending_session_creations)
  if_prompt st i r (some s) =
      finish_prompt (record st { pending_prompts = remove i st.pending_prompts }) s
        (d.prompt_response r)

  -- The arm for a response that carries a result.
  unfoldable pub observe_result : SessionStore S → RequestId → RawValue → SessionStore S
  unfolding if_prompt
  observe_result st i r = if_prompt st i r (lookup i st.pending_prompts)

  unfoldable pub cancel_prompt :
      SessionStore S → Option String → Map RequestId String → SessionStore S
  cancel_prompt st none prompts = st
  cancel_prompt st (some s) prompts = record st {
    pending_prompts = prompts;
    threads = on_existing s (λ t. finish_turn t S.cancelled) st.threads;
  }

  -- The arm for a response that carries an error.
  unfoldable pub observe_error : SessionStore S → RequestId → SessionStore S
  unfolding cancel_prompt
  observe_error st i =
      let st' = cancel_prompt st (lookup i st.pending_prompts) (remove i st.pending_prompts) in
      record st' {
        pending_session_creations = retain_ne i st.pending_session_creations;
        pending_config_options = remove i st.pending_config_options;
        pending_session_states = remove i st.pending_session_states;
        pending_forgets = remove i st.pending_forgets;
      }

  unfoldable pub observe_from_agent : SessionStore S → Frame → SessionStore S
  unfolding observe_result observe_error ask_session params_as
  observe_from_agent st (request i method params) =
      if method == elicitation_create
      then given (params_as d.create_elicitation (request i method params)) st
          (λ r. ask_session st i r r.scope)
      else st
  observe_from_agent st (notification method params) =
      if method == elicitation_complete
      then given (params_as d.complete_elicitation (notification method params)) st
          (λ i. record st { threads = complete_in i st.threads })
      else if method == session_update
      then given (params_as d.session_notification (notification method params)) st
          (λ n. record st { threads = on_entry n.0 (λ t. (apply t n.1).0) st.threads })
      else st
  observe_from_agent st (response i (result r)) = observe_result st i r
  observe_from_agent st (response i (error e)) = observe_error st i
