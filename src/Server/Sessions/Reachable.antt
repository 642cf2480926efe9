-- ===== src/Server/Sessions/Reachable.antt =====
-- Whatever frames the relay shows to the store of sessions.rs, in any order, each wait keeps its thread.
use mjx_acp_agent.Server.Sessions.Tracked.{
  Tracked, grown, given-Tracked, if-Tracked, forget-Tracked, cancel_session-Tracked,
  observe_from_client-Tracked, new_store-Tracked,
}
use mjx_acp_agent.Server.Sessions.Agent.{
  ask_session, finish_prompt, created, stated, configured, if_config, if_forget, if_state,
  if_creation, if_prompt, cancel_prompt, remove_first, observe_from_agent,
}
use mjx_acp_agent.Server.Sessions.Client.{observe_from_client}
use mjx_acp_agent.Core.Frame.Params.{params_as}
use mjx_acp_agent.Prelude.{
  [], ◌∷◌, true, false, inr, inl, List, Result-cases, if◌then◌else◌, Bool, String, Option, none,
  some, string_eq, Result, ok, err,
}
use mjx_acp_agent.Prelude.Map.{insert, lookup, remove, Map}
use mjx_acp_agent.Core.Frame.{
  error, result, response, request, notification, RawValue, Frame, RequestId, id_eq,
}
use mjx_acp_agent.Thread.Schema.{
  elsewhere, session, ElicitationScope, CreateElicitationRequest, Schema,
}
use mjx_acp_agent.Thread.Model.{Thread}
use mjx_acp_agent.Thread.Elicitations.{push_elicitation}
use mjx_acp_agent.Server.Sessions.Store.{
  thread_or_default, SessionStore, Decoders, new_store, cancel_session,
}
use mjx_acp_agent.Server.Sessions.Covers.{
  insert-Has, complete_in-Grows, Covers-remove, Covers, Covers-Grows, Covers-insert, insert-Grows,
  on_entry-Grows, on_existing-Grows,
}

-- What the relay calls the store with.
pub data Event : Type 0 where
  from_client from_agent : Frame → Event
  gives_up : String → Event

module _ {S : Schema} {E : Type 0} (d : Decoders S E) where
  if-Covers :
      (m : Map String (Thread S)) (b : Bool) (p q : Map RequestId String)
      → Covers m p
      → Covers m q
      → Covers m (if b then p else q)
  if-Covers m true p q v w = v
  if-Covers m false p q v w = w

  ask_session-Tracked :
      (st : SessionStore S) (i : RequestId) (r : CreateElicitationRequest S)
      (scope : ElicitationScope)
      → Tracked st
      → Tracked (ask_session st i r scope)
  unfolding ask_session
  ask_session-Tracked st i r (session s c) v =
      let t = (push_elicitation (thread_or_default (lookup s st.threads)) i r).0 in
      let asked = (push_elicitation (thread_or_default (lookup s st.threads)) i r).1 in
      let g = insert-Grows s t st.threads in
      let kept = Covers-Grows st.threads _ st.pending_elicitations g v.elicitations in
      record {
        prompts = Covers-Grows st.threads _ st.pending_prompts g v.prompts;
        elicitations =
            if-Covers _ asked _ _
              (Covers-insert (insert s t st.threads) i s st.pending_elicitations
                (insert-Has s t st.threads) kept)
              kept;
      }
  ask_session-Tracked st i r elsewhere v = v

  finish_prompt-Tracked :
      (st : SessionStore S) (s : String) (r : Result S.StopReason E)
      → Tracked st
      → Tracked (finish_prompt d st s r)
  unfolding finish_prompt
  finish_prompt-Tracked st s (ok reason) v = grown st _ (on_existing-Grows s _ st.threads) v
  finish_prompt-Tracked st s (err e) v = v

  -- Only waits of other kinds change.
  relabel :
      {st : SessionStore S} (a : List RequestId) (b c e : Map RequestId String)
      → Tracked st
      → Tracked (record st {
        pending_session_creations = a;
        pending_session_states = b;
        pending_forgets = c;
        pending_config_options = e;
      })
  relabel a b c e v = record { prompts = v.prompts; elicitations = v.elicitations }

  if_config-Tracked :
      (st : SessionStore S) (i : RequestId) (r : RawValue) (o : Option String)
      → Tracked st
      → Tracked (if_config d st i r o)
  unfolding if_config
  if_config-Tracked st i r none v = v
  if_config-Tracked st i r (some s) v = elim (Result-cases (d.set_config_option_response r)) [
    | inl (options, e) ↦
        rw (e, configured)
          (grown _ _ (on_existing-Grows s _ st.threads) (
            relabel st.pending_session_creations st.pending_session_states st.pending_forgets
              (remove i st.pending_config_options) v))
    | inr (x, e) ↦
        rw (e, configured)
          (relabel st.pending_session_creations st.pending_session_states st.pending_forgets
            (remove i st.pending_config_options) v)
  ]

  if_forget-Tracked :
      (st : SessionStore S) (i : RequestId) (r : RawValue) (o : Option String)
      → Tracked st
      → Tracked (if_forget d st i r o)
  unfolding if_forget
  if_forget-Tracked st i r none v = if_config-Tracked st i r (lookup i st.pending_config_options) v
  if_forget-Tracked st i r (some s) v = forget-Tracked _ s (
      relabel st.pending_session_creations st.pending_session_states (remove i st.pending_forgets)
        st.pending_config_options v)

  if_state-Tracked :
      (st : SessionStore S) (i : RequestId) (r : RawValue) (o : Option String)
      → Tracked st
      → Tracked (if_state d st i r o)
  unfolding if_state
  if_state-Tracked st i r none v = if_forget-Tracked st i r (lookup i st.pending_forgets) v
  if_state-Tracked st i r (some s) v = elim (Result-cases (d.load_session_response r)) [
    | inl (state, e) ↦
        rw (e, stated)
          (grown _ _ (on_existing-Grows s _ st.threads) (
            relabel st.pending_session_creations (remove i st.pending_session_states)
              st.pending_forgets st.pending_config_options v))
    | inr (x, e) ↦
        rw (e, stated)
          (relabel st.pending_session_creations (remove i st.pending_session_states)
            st.pending_forgets st.pending_config_options v)
  ]

  if_creation-Tracked :
      (st : SessionStore S) (i : RequestId) (r : RawValue) (o : Option (List RequestId))
      → Tracked st
      → Tracked (if_creation d st i r o)
  unfolding if_creation
  if_creation-Tracked st i r none v = if_state-Tracked st i r (lookup i st.pending_session_states) v
  if_creation-Tracked st i r (some rest) v = elim (Result-cases (d.new_session_response r)) [
    | inl ((s, state), e) ↦
        rw (e, created)
          (grown _ _ (on_entry-Grows s _ st.threads)
            (relabel rest st.pending_session_states st.pending_forgets st.pending_config_options v))
    | inr (x, e) ↦
        rw (e, created)
          (relabel rest st.pending_session_states st.pending_forgets st.pending_config_options v)
  ]

  answered :
      (st : SessionStore S) (i : RequestId)
      → Tracked st
      → Tracked (record st { pending_prompts = remove i st.pending_prompts })
  answered st i v = record {
    prompts = Covers-remove st.threads i st.pending_prompts v.prompts;
    elicitations = v.elicitations;
  }

  if_prompt-Tracked :
      (st : SessionStore S) (i : RequestId) (r : RawValue) (o : Option String)
      → Tracked st
      → Tracked (if_prompt d st i r o)
  unfolding if_prompt
  if_prompt-Tracked st i r none v =
      if_creation-Tracked st i r (remove_first i st.pending_session_creations) v
  if_prompt-Tracked st i r (some s) v =
      finish_prompt-Tracked _ s (d.prompt_response r) (answered st i v)

  cancel_prompt-Tracked :
      (st : SessionStore S) (i : RequestId) (o : Option String)
      → Tracked st
      → Tracked (cancel_prompt d st o (remove i st.pending_prompts))
  unfolding cancel_prompt
  cancel_prompt-Tracked st i none v = v
  cancel_prompt-Tracked st i (some s) v =
      grown _ _ (on_existing-Grows s _ st.threads) (answered st i v)

  notification-Tracked :
      (st : SessionStore S) (method : String) (params : Option RawValue)
      → Tracked st
      → Tracked (observe_from_agent d st (notification method params))
  unfolding observe_from_agent
  notification-Tracked st method params v =
      if-Tracked d _ _ _
        (given-Tracked (params_as d.complete_elicitation (notification method params)) st _ v
          (λ i. grown st _ (complete_in-Grows i st.threads) v))
        (if-Tracked d _ _ _
          (given-Tracked (params_as d.session_notification (notification method params)) st _ v
            (λ n. grown st _ (on_entry-Grows n.0 _ st.threads) v))
          v)

  -- Whatever frame the agent sends, the invariant holds after it.
  pub observe_from_agent-Tracked :
      (st : SessionStore S) (f : Frame) → Tracked st → Tracked (observe_from_agent d st f)
  unfolding observe_from_agent
  observe_from_agent-Tracked st (request i method params) v =
      if-Tracked d _ _ _
        (given-Tracked (params_as d.create_elicitation (request i method params)) st _ v
          (λ r. ask_session-Tracked st i r r.scope v))
        v
  observe_from_agent-Tracked st (notification method params) v =
      notification-Tracked st method params v
  observe_from_agent-Tracked st (response i (result r)) v =
      if_prompt-Tracked st i r (lookup i st.pending_prompts) v
  observe_from_agent-Tracked st (response i (error e)) v =
      relabel _ _ _ _ (cancel_prompt-Tracked st i (lookup i st.pending_prompts) v)

  -- The store after the relay's calls, in any order.
  pub history : SessionStore S → List Event → SessionStore S
  history st [] = st
  history st (from_client f ∷ es) = history (observe_from_client d st f) es
  history st (from_agent f ∷ es) = history (observe_from_agent d st f) es
  history st (gives_up s ∷ es) = history (cancel_session st s).0 es

  history-Tracked : (st : SessionStore S) (es : List Event) → Tracked st → Tracked (history st es)
  unfolding history
  history-Tracked st [] v = v
  history-Tracked st (from_client f ∷ es) v =
      history-Tracked (observe_from_client d st f) es (observe_from_client-Tracked d st f v)
  history-Tracked st (from_agent f ∷ es) v =
      history-Tracked (observe_from_agent d st f) es (observe_from_agent-Tracked st f v)
  history-Tracked st (gives_up s ∷ es) v =
      history-Tracked (cancel_session st s).0 es (cancel_session-Tracked st s v)

  -- In every store that any history of frames from either side leads to, the session of each prompt and of
  -- each elicitation still waiting has a thread, so that an answer finds what it ends.
  pub reachable-Tracked : (es : List Event) → Tracked (history (new_store S) es)
  reachable-Tracked es = history-Tracked (new_store S) es new_store-Tracked
