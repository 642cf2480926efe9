-- ===== src/Server/Sessions/Forgetting.antt =====
-- What happens in sessions.rs to the threads of sessions that are loaded again, deleted or closed.
use mjx_acp_agent.Core.Frame.Params.{Decoder}
use mjx_acp_agent.Server.Sessions.Agent.{
  if_forget, if_state, if_creation, if_prompt, cancel_prompt, remove_first, observe_from_agent,
}
use mjx_acp_agent.Core.Method.Agent.{session_close, session_load, session_delete}
use mjx_acp_agent.Thread.Model.{new}
use mjx_acp_agent.Prelude.Map.{
  insert, lookup-insert, lookup-remove, lookup-retain_keeps, remove, lookup, Map,
}
use mjx_acp_agent.Server.Sessions.Client.{observe_from_client}
use mjx_acp_agent.Server.Sessions.Store.{
  forget, session_of_prompt, without, SessionStore, thread, Decoders,
}
use mjx_acp_agent.Thread.Schema.{Schema}
use mjx_acp_agent.Prelude.{
  Bool, ◌∙◌, ==-refl, none, ◌==◌, ok, if◌then◌else◌, some, ◌≢◌, ◌≡◌, String, string_eq, refl, not,
  true, false,
}
use mjx_acp_agent.Core.Frame.{
  error, result, response, JsonRpcError, request, RawValue, RequestId, id_eq,
}

module _ {S : Schema} {E : Type 0} (d : Decoders S E) where
  without_lem :
      (s : String) (i : RequestId) (p : Map RequestId String) → lookup i (without s p) ≢ some s
  without_lem s i p h =
      let kept = lookup-retain_keeps (λ v. not (v == s)) i p s h in cc (kept, ==-refl s)

  -- A load that can be read starts the session's thread anew, and no other's. No question of that session
  -- waits any longer, and the request's id waits for the session's state.
  pub load_request :
      (st : SessionStore S) (i : RequestId) (raw : RawValue) (s j : String) (k : RequestId)
      → d.load_session raw ≡ ok s
      → let after = observe_from_client d st (request i session_load (some raw)) in
        (thread after j ≡ (if s == j then some (new S) else thread st j))
        × (lookup k after.pending_elicitations ≢ some s)
        × (lookup i after.pending_session_states ≡ some s)
  unfolding observe_from_client thread
  load_request st i raw s j k e =
      rw (e, observe_from_client)
        (
          lookup-insert s j (new S) st.threads,
          without_lem s k st.pending_elicitations,
          lookup-insert i i s st.pending_session_states ∙ rw (==-refl i),
        )

  abbrev pub forget_method : Bool → String
  forget_method true = session_delete
  forget_method false = session_close

  abbrev pub forget_reader : Bool → Decoder E String
  forget_reader true = d.delete_session
  forget_reader false = d.close_session

  -- The store after the browser's request to delete or to close a session.
  asked : SessionStore S → RequestId → String → SessionStore S
  asked st i s = record st { pending_forgets = insert i s st.pending_forgets }

  asks :
      (st : SessionStore S) (i : RequestId) (raw : RawValue) (s : String) (deletes : Bool)
      → forget_reader deletes raw ≡ ok s
      → observe_from_client d st (request i (forget_method deletes) (some raw)) ≡ asked st i s
  unfolding observe_from_client asked
  asks st i raw s true e = rw (e, observe_from_client)
  asks st i raw s false e = rw (e, observe_from_client)

  waits : (i : RequestId) (s : String) (m : Map RequestId String) → lookup i (insert i s m) ≡ some s
  waits i s m = lookup-insert i i s m ∙ rw (==-refl i)

  agreed_forgets :
      (st : SessionStore S) (i : RequestId) (r : RawValue) (s : String)
      → lookup i st.pending_prompts ≡ none
      → remove_first i st.pending_session_creations ≡ none
      → lookup i st.pending_session_states ≡ none
      → observe_from_agent d (asked st i s) (response i (result r))
        ≡ forget
            (record (asked st i s) { pending_forgets = remove i (insert i s st.pending_forgets) })
            s
  unfolding asked observe_from_agent
  agreed_forgets st i r s prompt creation state = rw (
    prompt,
    if_prompt,
    creation,
    if_creation,
    state,
    if_state,
    waits i s st.pending_forgets,
    if_forget,
  )

  refused_keeps :
      (st : SessionStore S) (i : RequestId) (x : JsonRpcError) (s j : String)
      → lookup i st.pending_prompts ≡ none
      → (thread (observe_from_agent d (asked st i s) (response i (error x))) j ≡ thread st j)
        × (lookup i (observe_from_agent d (asked st i s) (response i (error x))).pending_forgets
            ≡ none)
  unfolding asked observe_from_agent thread
  refused_keeps st i x s j prompt =
      rw (prompt, cancel_prompt)
        (refl, lookup-remove i i (insert i s st.pending_forgets) ∙ rw (==-refl i))

  -- A session that the browser asks to delete or to close, under an id that no other request waits under,
  -- keeps its thread until the agent answers. Where the agent agrees, that session's thread is gone and
  -- with it each prompt in flight for it; where it refuses, no thread has changed. No other session's
  -- thread changes either way.
  pub forget_answered :
      (st : SessionStore S) (i : RequestId) (raw r : RawValue) (x : JsonRpcError) (deletes : Bool)
      (s j : String) (k : RequestId)
      → forget_reader deletes raw ≡ ok s
      → session_of_prompt st i ≡ none
      → remove_first i st.pending_session_creations ≡ none
      → lookup i st.pending_session_states ≡ none
      → let asking = observe_from_client d st (request i (forget_method deletes) (some raw)) in
        let agreed = observe_from_agent d asking (response i (result r)) in
        let refused = observe_from_agent d asking (response i (error x)) in
        (thread asking j ≡ thread st j)
        × (thread agreed j ≡ (if s == j then none else thread st j))
        × (session_of_prompt agreed k ≢ some s)
        × (thread refused j ≡ thread st j)
        × (lookup i refused.pending_forgets ≡ none)
  unfolding asked thread session_of_prompt forget
  forget_answered st i raw r x deletes s j k e prompt creation state =
      let no = refused_keeps st i x s j prompt in
      rw (asks st i raw s deletes e, agreed_forgets st i r s prompt creation state)
        (refl, lookup-remove s j st.threads, without_lem s k st.pending_prompts, no.0, no.1)
