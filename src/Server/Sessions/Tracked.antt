-- ===== src/Server/Sessions/Tracked.antt =====
-- Every prompt and every question that the store of sessions.rs waits on belongs to a session that it has
-- a thread for.
use mjx_acp_agent.Server.Sessions.Client.{observe_client_request, observe_from_client, answer}
use mjx_acp_agent.Core.Frame.Params.{params_as}
use mjx_acp_agent.Prelude.{
  true, false, if◌then◌else◌, Bool, String, Option, none, some, string_eq, Result, ok, err,
}
use mjx_acp_agent.Prelude.Map.{lookup, remove, Map}
use mjx_acp_agent.Core.Frame.{
  response, request, notification, ResponsePayload, Frame, RequestId, id_eq,
}
use mjx_acp_agent.Thread.Schema.{Schema}
use mjx_acp_agent.Thread.Model.{Thread, new, push_user_prompt}
use mjx_acp_agent.Thread.Elicitations.{cancel_pending_elicitations}
use mjx_acp_agent.Server.Sessions.Store.{
  SessionStore, Decoders, PromptRequest, new_store, given, without, forget, cancel_session,
}
use mjx_acp_agent.Server.Sessions.Client.{load, start_prompt}
use mjx_acp_agent.Server.Sessions.Covers.{
  Covers-remove, Covers, Grows, Covers-Grows, Covers-insert, Covers-without, Covers-retain,
  insert-Grows, on_entry-Grows, on_entry-Has, on_existing-Grows,
}

module _ {S : Schema} where
  -- The invariant.
  pub record Tracked (st : SessionStore S) : Type 0 where
    pub prompts : Covers st.threads st.pending_prompts
    pub elicitations : Covers st.threads st.pending_elicitations

  -- A step that keeps the waits and loses no thread keeps the invariant.
  pub grown :
      (st : SessionStore S) (m : Map String (Thread S))
      → Grows st.threads m
      → Tracked st
      → Tracked (record st { threads = m })
  grown st m g v = record {
    prompts = Covers-Grows st.threads m st.pending_prompts g v.prompts;
    elicitations = Covers-Grows st.threads m st.pending_elicitations g v.elicitations;
  }

  pub new_store-Tracked : Tracked (new_store S)
  new_store-Tracked = record { prompts = tt; elicitations = tt }

  pub cancel_session-Tracked :
      (st : SessionStore S) (s : String) → Tracked st → Tracked (cancel_session st s).0
  unfolding cancel_session
  cancel_session-Tracked st s v =
      let g = on_existing-Grows s (λ t. (cancel_pending_elicitations t).0) st.threads in
      record {
        prompts = Covers-Grows st.threads _ st.pending_prompts g v.prompts;
        elicitations =
            Covers-Grows st.threads _ (without s st.pending_elicitations) g
              (Covers-retain st.threads s st.pending_elicitations v.elicitations);
      }

  pub forget-Tracked : (st : SessionStore S) (s : String) → Tracked st → Tracked (forget st s)
  unfolding forget
  forget-Tracked st s v = record {
    prompts = Covers-without st.threads s st.pending_prompts v.prompts;
    elicitations = Covers-without st.threads s st.pending_elicitations v.elicitations;
  }

  pub given-Tracked :
      {A E : Type 0} (r : Result (Option A) E) (st : SessionStore S) (f : A → SessionStore S)
      → Tracked st
      → ((a : A) → Tracked (f a))
      → Tracked (given r st f)
  given-Tracked (ok (some a)) st f v h = h a
  given-Tracked (ok none) st f v h = v
  given-Tracked (err e) st f v h = v

module _ {S : Schema} {E : Type 0} (d : Decoders S E) where
  load-Tracked :
      (st : SessionStore S) (i : RequestId) (s : String) → Tracked st → Tracked (load d st i s)
  unfolding load
  load-Tracked st i s v =
      let g = insert-Grows s (new S) st.threads in
      record {
        prompts = Covers-Grows st.threads _ st.pending_prompts g v.prompts;
        elicitations =
            Covers-Grows st.threads _ (without s st.pending_elicitations) g
              (Covers-retain st.threads s st.pending_elicitations v.elicitations);
      }

  start_prompt-Tracked :
      (st : SessionStore S) (i : RequestId) (r : PromptRequest S)
      → Tracked st
      → Tracked (start_prompt d st i r)
  unfolding start_prompt
  start_prompt-Tracked st i r v =
      let f = λ (t : Thread S). push_user_prompt t r.prompt in
      let g = on_entry-Grows r.session_id f st.threads in
      record {
        prompts =
            Covers-insert _ i r.session_id st.pending_prompts
              (on_entry-Has r.session_id f st.threads)
              (Covers-Grows st.threads _ st.pending_prompts g v.prompts);
        elicitations = Covers-Grows st.threads _ st.pending_elicitations g v.elicitations;
      }

  pub if-Tracked :
      (b : Bool) (x y : SessionStore S) → Tracked x → Tracked y → Tracked (if b then x else y)
  if-Tracked true x y v w = v
  if-Tracked false x y v w = w

  observe_client_request-Tracked :
      (st : SessionStore S) (f : Frame) (i : RequestId) (method : String)
      → Tracked st
      → Tracked (observe_client_request d st f i method)
  unfolding observe_client_request
  observe_client_request-Tracked st f i method v =
      if-Tracked _ _ _ (record { prompts = v.prompts; elicitations = v.elicitations })
        (if-Tracked _ _ _
          (given-Tracked (params_as d.load_session f) st _ v (λ s. load-Tracked st i s v))
          (if-Tracked _ _ _
            (given-Tracked (params_as d.resume_session f) st _ v
              (λ s. record { prompts = v.prompts; elicitations = v.elicitations }))
            (if-Tracked _ _ _
              (given-Tracked (params_as d.delete_session f) st _ v
                (λ s. record { prompts = v.prompts; elicitations = v.elicitations }))
              (if-Tracked _ _ _
                (given-Tracked (params_as d.close_session f) st _ v
                  (λ s. record { prompts = v.prompts; elicitations = v.elicitations }))
                (if-Tracked _ _ _
                  (given-Tracked (params_as d.set_config_option f) st _ v
                    (λ s. record { prompts = v.prompts; elicitations = v.elicitations }))
                  (if-Tracked _ _ _
                    (given-Tracked (params_as d.prompt f) st _ v
                      (λ r. start_prompt-Tracked st i r v))
                    v))))))

  answer-Tracked :
      (st : SessionStore S) (i : RequestId) (o : Option String) (payload : ResponsePayload)
      → Tracked st
      → Tracked (answer d st i o payload)
  unfolding answer
  answer-Tracked st i none payload v = v
  answer-Tracked st i (some s) payload v =
      let g = on_existing-Grows s _ st.threads in
      record {
        prompts = Covers-Grows st.threads _ st.pending_prompts g v.prompts;
        elicitations =
            Covers-Grows st.threads _ (remove i st.pending_elicitations) g
              (Covers-remove st.threads i st.pending_elicitations v.elicitations);
      }

  -- Whatever frame the browser sends, the invariant holds after it.
  pub observe_from_client-Tracked :
      (st : SessionStore S) (f : Frame) → Tracked st → Tracked (observe_from_client d st f)
  unfolding observe_from_client
  observe_from_client-Tracked st (request i method params) v =
      observe_client_request-Tracked st (request i method params) i method v
  observe_from_client-Tracked st (response i payload) v =
      answer-Tracked st i (lookup i st.pending_elicitations) payload v
  observe_from_client-Tracked st (notification method params) v = v
