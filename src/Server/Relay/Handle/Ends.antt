-- ===== src/Server/Relay/Handle/Ends.antt =====
-- What the end of a turn, and a frame of the server's own, do to the relay.
use mjx_acp_agent.Server.IdBridge.{IdBridge, for_browser}
use mathlib.Core.Path.{sym, subst}
use package.text.Mathlib.TextEquality.{eq_iff}
use mjx_acp_agent.Server.Relay.Handle.{
  rebind, with_servers, label_of, ends_turn, forget_ended, observe_session, drop_answered,
  record_handshake, ask, announce_after_handshake, handle, handle_frame, relay_frame, route,
  remember, dispatch,
}
use mjx_acp_agent.Core.Frame.Line.{to_line}
use mjx_acp_agent.Core.Frame.Params.{params_as}
use mjx_acp_agent.Server.Sessions.Store.{session_of_prompt, thread}
use mjx_acp_agent.Core.Method.Agent.{session_prompt}
use mjx_acp_agent.Core.Method.{is_extension}
use mjx_acp_agent.Prelude.Map.{lookup}
use mjx_acp_agent.Thread.Schema.{Schema}
use mjx_acp_agent.Core.Frame.{
  notification, RawValue, ResponsePayload, request, RequestId, method, parse, Frame, id_eq,
  response, result, error, internal, invalid_params, method_not_found,
}
use mjx_acp_agent.Core.Correlator.{peek, observe, client_to_agent, agent_to_client}
use mjx_acp_agent.Server.Relay.Routing.{
  Relay, replay, announce, forward, stop_reason_of, forget_questions, handle_extension,
  session_replay, session_of, to_browser, keep, Hooks, Action, line, turn_ended, forwards,
}
use mjx_acp_agent.Prelude.{
  Result, Option, err, Result-cases, if◌then◌else◌, ◌∙◌, ap, sym, arith, ◌==◌, inr, inl, Bool-cases,
  Option-cases, ok, ◌≡◌, ◌≢◌, map, option_beq, String, List, string_eq, [], ◌∷◌, true, refl, none,
  some, not,
}

module _ {S : Schema} {E : Type 0} (h : Hooks S E) where
  -- What a thread is sent as: written, or with why it could not be.
  abbrev pub WrittenPayload : Result RawValue E → ResponsePayload → Type 0
  WrittenPayload (ok raw) payload = payload ≡ result raw
  WrittenPayload (err e) payload = payload ≡ error (internal (h.display e))

  -- The payload that answers an extension request: the thread of the session that a replay names, if that can be read and
  -- written, and otherwise an error.
  abbrev pub ReplayPayload : Relay S → Result (Option String) E → ResponsePayload → Type 0
  ReplayPayload r (ok (some s)) payload =
      WrittenPayload (h.thread_json (thread r.sessions s)) payload
  ReplayPayload r (ok none) payload = payload ≡ error (invalid_params "missing params")
  ReplayPayload r (err e) payload = payload ≡ error (invalid_params (h.display e))

  abbrev pub ExtensionPayload : Relay S → Frame → String → ResponsePayload → Type 0
  ExtensionPayload r f m payload =
      if m == session_replay
      then ReplayPayload r (params_as h.replay_request f) payload
      else (payload ≡ error (method_not_found m))

  -- What an extension frame comes to: a request is answered by one line to the browser under its own id, behind which a
  -- replay puts the questions that are still open; a notification by nothing.
  abbrev pub ExtensionAnswered : Relay S → Frame → List Action → Type 0
  ExtensionAnswered r (request i m p) sent =
      (payload : ResponsePayload) × ExtensionPayload r (request i m p) m payload
      × (sent
          ≡ line agent_to_client (to_line h.printer (response i payload))
            ∷ (if m == session_replay
                then map (λ f. line agent_to_client (to_line h.printer f)) r.unanswered
                else []))
  ExtensionAnswered r (notification m p) sent = sent ≡ []
  ExtensionAnswered r (response i payload) sent = ⊥

  replayed :
      (r : Relay S) (i : RequestId) (o : Result (Option String) E)
      → (payload : ResponsePayload) × ReplayPayload r o payload
        × (replay h r i o ≡ response i payload)
  unfolding replay
  replayed r i (err e) = (_, refl, refl)
  replayed r i (ok none) = (_, refl, refl)
  replayed r i (ok (some s)) = elim (Result-cases (h.thread_json (thread r.sessions s))) [
    | inl (raw, e) ↦ rw e (result raw, refl, refl)
    | inr (x, e) ↦ rw e (error (internal (h.display x)), refl, refl)
  ]

  ext_told :
      (r : Relay S) (f : Frame) (m : String)
      → method f ≡ some m
      → ExtensionAnswered r f (handle_extension h r f)
  unfolding handle_extension to_browser method
  ext_told r (request i m p) n named = elim (Bool-cases (m == session_replay)) [
    | inl e ↦
        let (payload, is, made) = replayed r i (params_as h.replay_request (request i m p)) in
        rw e (
          payload,
          is,
          ap (λ f. line agent_to_client (to_line h.printer f) ∷ map (to_browser h) r.unanswered)
              made,
        )
    | inr e ↦ rw e (_, refl, refl)
  ]
  ext_told r (response i p) n named = cc
  ext_told r (notification m p) n named = refl

  ext_frame :
      (r : Relay S) (f : Frame) (m : String)
      → method f ≡ some m
      → is_extension m ≡ true
      → ((handle_frame h r client_to_agent f).0 ≡ r)
        × ExtensionAnswered r f (handle_frame h r client_to_agent f).1
  unfolding handle_frame
  ext_frame r f m named ext = rw (named, handle_frame, ext) (refl, ext_told r f m named)

  -- A frame of the server's own extensions changes nothing of what the relay remembers, and nothing of it reaches the
  -- agent. A request is answered to the browser, under its own id: a replay with the session's thread or with what is
  -- wrong with it, and then with the questions still open; any other with the error that there is no such method. A
  -- notification is dropped.
  pub extension_private :
      (r : Relay S) (text : String) (f : Frame) (m : String)
      → parse h.from_str text ≡ ok f
      → method f ≡ some m
      → is_extension m ≡ true
      → ((handle h r client_to_agent text).0 ≡ r)
        × ExtensionAnswered r f (handle h r client_to_agent text).1
  unfolding handle
  extension_private r text f m parsed named ext = rw (parsed, handle) (ext_frame r f m named ext)

  -- No question on the list is one of session `s`.
  abbrev pub Drops : String → List Frame → Type 0
  Drops s [] = Unit
  Drops s (f ∷ fs) = (session_of h f ≢ some s) × Drops s fs

  keep-Drops :
      (s : String) (fs : List Frame)
      → Drops s (keep h (λ asked. not (option_beq (session_of h asked) (some s))) fs)
  unfolding keep
  keep-Drops s [] = tt
  keep-Drops s (f ∷ fs) = elim (Option-cases (session_of h f)) [
    | inl e ↦ rw e ((λ k. cc), keep-Drops s fs)
    | inr (t, e) ↦ elim (Bool-cases (t == s)) [
      | inl hit ↦ rw (e, hit) (keep-Drops s fs)
      | inr miss ↦ rw (e, miss) ((λ k. ground (arith, k, e, miss, eq_iff t s)), keep-Drops s fs)
    ]
  ]

  abbrev Delivered :
      IdBridge → RequestId → ResponsePayload → String → Relay S × List Action → Type 0
  Delivered ids i payload s after =
      (after.1 ≡ (elim (for_browser ids i).1 as (λ _. List Action) [
        | none ↦ turn_ended s (stop_reason_of h payload) ∷ []
        | some browser ↦ line agent_to_client (to_line h.printer (response browser payload)) ∷ []
      ]))
      × Drops s after.0.unanswered

  relay_answer :
      (r : Relay S) (i : RequestId) (payload : ResponsePayload)
      → relay_frame h r agent_to_client (response i payload)
        ≡ route h
            (record r {
              correlator = (observe r.correlator agent_to_client (response i payload)).0;
            })
            agent_to_client
            (response i payload)
            (peek r.correlator client_to_agent i)
  unfolding relay_frame observe peek rebind with_servers label_of lookup method
  relay_answer r i payload = refl

  remembered :
      (r : Relay S) (i : RequestId) (payload : ResponsePayload) (s : String)
      → session_of_prompt r.sessions i ≡ some s
      → let after = remember h r agent_to_client (response i payload) (some session_prompt) in
        (after.ids ≡ r.ids) × Drops s after.unanswered
  unfolding remember ends_turn forget_ended forget_questions observe_session drop_answered
      record_handshake
  remembered r i (result raw) s prompt = rw (prompt, forget_ended) (refl, keep-Drops s r.unanswered)
  remembered r i (error x) s prompt = rw (prompt, forget_ended) (refl, keep-Drops s r.unanswered)

  sent_on :
      (r : Relay S) (i : RequestId) (payload : ResponsePayload) (s : String)
      → Drops s r.unanswered
      → Delivered r.ids i payload s (
          dispatch h r agent_to_client (response i payload) (some session_prompt) (some s) forwards)
  unfolding dispatch forward for_browser to_browser ask announce_after_handshake announce
  sent_on r i payload s d = elim (Option-cases (lookup i r.ids.outstanding)) [
    | inl e ↦ rw e (refl, d)
    | inr (b, e) ↦ rw e (refl, d)
  ]

  route_over :
      (r : Relay S) (i : RequestId) (payload : ResponsePayload) (s : String)
      → session_of_prompt r.sessions i ≡ some s
      → h.on_frame agent_to_client (response i payload) ≡ (forwards, [])
      → Delivered r.ids i payload s
          (route h r agent_to_client (response i payload) (some session_prompt))
  unfolding route ends_turn
  route_over r i payload s prompt passes =
      let known = remembered r i payload s prompt in
      let next = remember h r agent_to_client (response i payload) (some session_prompt) in
      rw (passes, prompt)
        (subst
          (λ ids. Delivered ids i payload s (
            dispatch h next agent_to_client (response i payload) (some session_prompt) (some s)
              forwards))
          known.0 (sent_on next i payload s known.1))

  from_agent :
      (r : Relay S) (f : Frame)
      → handle_frame h r agent_to_client f ≡ relay_frame h r agent_to_client f
  unfolding handle_frame
  from_agent r f = refl

  frame_over :
      (r : Relay S) (i : RequestId) (payload : ResponsePayload) (s : String)
      → peek r.correlator client_to_agent i ≡ some session_prompt
      → session_of_prompt r.sessions i ≡ some s
      → h.on_frame agent_to_client (response i payload) ≡ (forwards, [])
      → Delivered r.ids i payload s (handle_frame h r agent_to_client (response i payload))
  frame_over r i payload s asked prompt passes =
      let seen : Relay S = record r {
        correlator = (observe r.correlator agent_to_client (response i payload)).0;
      } in
      subst (Delivered r.ids i payload s)
        (sym (
          from_agent r (response i payload)
          ∙ relay_answer r i payload
          ∙ ap (λ label. route h seen agent_to_client (response i payload) label) asked))
        (route_over seen i payload s prompt passes)

  -- The agent's answer to a prompt, which the interceptor passes on, goes to the browser that asked, under
  -- that browser's own id; where it has left, the one attached is told instead that the turn has ended, and
  -- why. Either way no question of that session will be asked again.
  pub prompt_over :
      (r : Relay S) (text : String) (i : RequestId) (payload : ResponsePayload) (s : String)
      → parse h.from_str text ≡ ok (response i payload)
      → peek r.correlator client_to_agent i ≡ some session_prompt
      → session_of_prompt r.sessions i ≡ some s
      → h.on_frame agent_to_client (response i payload) ≡ (forwards, [])
      → let after = handle h r agent_to_client text in
        (after.1 ≡ (elim (for_browser r.ids i).1 as (λ _. List Action) [
          | none ↦ turn_ended s (stop_reason_of h payload) ∷ []
          | some browser ↦ line agent_to_client (to_line h.printer (response browser payload)) ∷ []
        ]))
        × Drops s after.0.unanswered
  unfolding handle
  prompt_over r text i payload s parsed asked prompt passes =
      rw (parsed, handle) (frame_over r i payload s asked prompt passes)
