-- ===== src/Server/Sessions/Turns.antt =====
-- How a turn begins and ends in the store of sessions.rs.
use mjx_acp_agent.Server.Sessions.Threads.{lookup-on_existing, lookup-on_entry, map_thread}
use mjx_acp_agent.Prelude.Map.{lookup-remove, lookup-insert, lookup, Map}
use mjx_acp_agent.Server.Sessions.Client.{observe_from_client}
use mjx_acp_agent.Server.Sessions.Agent.{observe_from_agent}
use mjx_acp_agent.Prelude.{
  string_eq, refl, sym, ==-refl, inr, ==→≡, ◌∙◌, inl, Bool-cases, Result-cases, ◌==◌, none, err,
  if◌then◌else◌, ◌≡◌, some, ok, Result, Option, List, [], ◌∷◌, ◌++◌, true,
}
use Prim.Native.String.{String}
use mjx_acp_agent.Thread.Schema.{Schema, ContentBlock}
use mjx_acp_agent.Server.Sessions.Store.{
  SessionStore, Decoders, PromptRequest, thread, session_of_prompt, thread_or_default,
}
use mjx_acp_agent.Server.Sessions.Tracked.{Tracked}
use mjx_acp_agent.Server.Sessions.Covers.{Covers-lookup}
use mjx_acp_agent.Thread.Model.{
  Thread, Entry, user, UserMessage, finish_turn, push_user_prompt, mint_id, idle, generating,
}
use mjx_acp_agent.Core.Frame.{
  RequestId, id_eq, RawValue, request, response, ResponsePayload, result, error,
}
use mjx_acp_agent.Core.Method.Agent.{session_prompt}

module _ {S : Schema} {E : Type 0} (d : Decoders S E) where
  -- Why the answer to a prompt says that the turn ended, if it can be read.
  abbrev pub reason_of : Result S.StopReason E → Option S.StopReason
  reason_of (ok reason) = some reason
  reason_of (err e) = none

  abbrev pub ends_with : ResponsePayload → Option S.StopReason
  ends_with (result r) = reason_of (d.prompt_response r)
  ends_with (error e) = some S.cancelled

  abbrev pub ended : Option S.StopReason → Option (Thread S) → Option (Thread S)
  ended none t = t
  ended (some reason) t = map_thread (λ u. finish_turn u reason) t

  self_entry :
      (s j : String) (m : Map String (Thread S))
      → (if s == j then lookup s m else lookup j m) ≡ lookup j m
  self_entry s j m = elim (Bool-cases (s == j)) [ inl e ↦ rw (e, ==→≡ s j e) | inr e ↦ rw e ]

  -- The agent's answer to a prompt in flight ends the turn of the session that the prompt named and of no
  -- other: with the reason it gives, or as cancelled where it is an error. An answer that cannot be read
  -- leaves every thread as it was. In each case the prompt is no longer in flight.
  pub prompt_answer :
      (st : SessionStore S) (i : RequestId) (s : String) (payload : ResponsePayload) (j : String)
      → session_of_prompt st i ≡ some s
      → let after = observe_from_agent d st (response i payload) in
        (thread after j ≡ (if s == j then ended (ends_with payload) (thread st s) else thread st j))
        × (session_of_prompt after i ≡ none)
  unfolding observe_from_agent session_of_prompt thread
  prompt_answer st i s (result r) j h = elim (Result-cases (d.prompt_response r)) [
    | inl (reason, e) ↦
        rw (h, observe_from_agent, e)
          (
            lookup-on_existing s j (λ u. finish_turn u reason) st.threads,
            lookup-remove i i st.pending_prompts ∙ rw (==-refl i),
          )
    | inr (x, e) ↦
        rw (h, observe_from_agent, e)
          (sym (self_entry s j st.threads), lookup-remove i i st.pending_prompts ∙ rw (==-refl i))
  ]
  prompt_answer st i s (error x) j h =
      rw (h, observe_from_agent)
        (
          lookup-on_existing s j (λ u. finish_turn u S.cancelled) st.threads,
          lookup-remove i i st.pending_prompts ∙ rw (==-refl i),
        )

  -- The prompt as the last entry of a thread in a running turn, behind the entries that were there.
  pub record InTurn (old : List (Entry S)) (content : List (ContentBlock S)) (t : Thread S)
      : Type 0 where
    pub running : t.status ≡ generating
    pub no_reason : t.stop_reason ≡ none
    pub prompt : UserMessage S
    pub entries : t.entries ≡ old ++ user prompt ∷ []
    pub asked : prompt.content ≡ content
    pub waits_for_echo : prompt.is_optimistic ≡ true

  push_user_prompt-InTurn :
      (t : Thread S) (content : List (ContentBlock S))
      → InTurn t.entries content (push_user_prompt t content)
  unfolding push_user_prompt mint_id
  push_user_prompt-InTurn t content = record {
    running = refl;
    no_reason = refl;
    prompt = _;
    entries = refl;
    asked = refl;
    waits_for_echo = refl;
  }

  -- A prompt that can be read puts the session's thread, made for it where there was none, into a running turn, with no
  -- stop reason, and adds the prompt, still to be echoed, behind its entries; it is in flight for that session, and every
  -- other thread is left as it was.
  pub prompt_sent :
      (st : SessionStore S) (i : RequestId) (raw : RawValue) (r : PromptRequest S) (j : String)
      → d.prompt raw ≡ ok r
      → let after = observe_from_client d st (request i session_prompt (some raw)) in
        (t : Thread S) × (thread after j ≡ (if r.session_id == j then some t else thread st j))
        × InTurn (thread_or_default (thread st r.session_id)).entries r.prompt t
        × (session_of_prompt after i ≡ some r.session_id)
  unfolding observe_from_client session_of_prompt thread
  prompt_sent st i raw r j e =
      rw (e, observe_from_client)
        (
          push_user_prompt (thread_or_default (lookup r.session_id st.threads)) r.prompt,
          lookup-on_entry r.session_id j (λ t. push_user_prompt t r.prompt) st.threads,
          push_user_prompt-InTurn (thread_or_default (lookup r.session_id st.threads)) r.prompt,
          lookup-insert i i r.session_id st.pending_prompts ∙ rw (==-refl i),
        )

  -- In a store that tracks its prompts, whose reachable stores all do, an answer that can be read, an
  -- error included, leaves the session of the prompt idle: no thread is left generating.
  pub turn_ends :
      (st : SessionStore S) (i : RequestId) (s : String) (payload : ResponsePayload)
      (reason : S.StopReason)
      → Tracked st
      → session_of_prompt st i ≡ some s
      → ends_with payload ≡ some reason
      → (t : Thread S) × (thread (observe_from_agent d st (response i payload)) s ≡ some t)
        × (t.status ≡ idle)
        × (t.stop_reason ≡ some reason)
  unfolding session_of_prompt thread finish_turn
  turn_ends st i s payload reason v h e =
      let (t, held) = Covers-lookup st.threads st.pending_prompts i s v.prompts h in
      (
        finish_turn t reason,
        (prompt_answer st i s payload s h).0 ∙ rw (==-refl s, e, held),
        refl,
        refl,
      )
