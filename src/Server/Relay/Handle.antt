-- ===== src/Server/Relay/Handle.antt =====
-- relay.rs: `Relay::handle`, step by step.
pub mod Ends
use mjx_acp_agent.Core.Frame.Line.{to_line}
use mjx_acp_agent.Thread.Schema.{Schema}
use mjx_acp_agent.Server.Sessions.Agent.{observe_from_agent}
use mjx_acp_agent.Server.Sessions.Store.{session_of_prompt}
use mjx_acp_agent.Server.Sessions.Client.{observe_from_client}
use mjx_acp_agent.Core.Method.Agent.{session_prompt}
use mjx_acp_agent.Core.Method.{is_extension}
use mjx_acp_agent.Prelude.{
  String, Option, none, some, List, [], ◌∷◌, ◌++◌, Bool, true, false, ◌==◌, string_eq, option_beq,
  not, if◌then◌else◌, Result, ok, err, ◌&&◌,
}
use mjx_acp_agent.Core.Frame.{
  parse, Frame, id_eq, result, error, request, response, notification, method, id,
}
use mjx_acp_agent.Core.Correlator.{Direction, client_to_agent, agent_to_client, observe}
use mjx_acp_agent.Server.IdBridge.{for_agent}
use mjx_acp_agent.Server.Relay.Handshake.{transports, record_answer}
use mjx_acp_agent.Server.Relay.Routing.{
  Hooks, Relay, Disposition, forwards, rewrites, intercepts, Action, line, inspector_frame, keep,
  forget_questions, announce, handle_extension, answer_from_recording, forward,
}

module _ {S : Schema} {E : Type 0} (h : Hooks S E) where
  -- A browser's request in the agent's id space.
  unfoldable pub rebind : Relay S → Direction → Frame → Relay S × Frame
  rebind r client_to_agent (request i m p) =
      let (ids, agent) = for_agent r.ids i in (record r { ids = ids }, request agent m p)
  rebind r way f = (r, f)

  merged : Frame → Option Frame → Frame
  merged f none = f
  merged f (some g) = g

  unfoldable pub with_servers : Relay S → Direction → Frame → Relay S × Frame
  unfolding merged
  with_servers r client_to_agent f =
      let (shaken, t) = transports h.json r.handshake in
      if h.has_servers
      then (record r { handshake = shaken }, merged f (h.merge_mcp_servers f t))
      else (r, f)
  with_servers r agent_to_client f = (r, f)

  unfoldable pub label_of : Frame → Option String → Option String
  label_of f answered = elim (method f) [ none ↦ answered | some m ↦ some m ]

  unfoldable pub ends_turn : Relay S → Direction → Frame → Option String → Option String
  ends_turn r agent_to_client (response i payload) label =
      if option_beq label (some session_prompt) then session_of_prompt r.sessions i else none
  ends_turn r way f label = none

  unfoldable pub observe_session : Relay S → Direction → Frame → Relay S
  observe_session r client_to_agent f = record r {
    sessions = observe_from_client h.readers r.sessions f;
  }
  observe_session r agent_to_client f = record r {
    sessions = observe_from_agent h.readers r.sessions f;
  }

  unfoldable pub forget_ended : Relay S → Option String → Relay S
  forget_ended r none = r
  forget_ended r (some s) = forget_questions h r s

  unfoldable pub drop_answered : Relay S → Direction → Frame → Relay S
  drop_answered r client_to_agent (response i payload) = record r {
    unanswered = keep h (λ asked. not (option_beq (id asked) (some i))) r.unanswered;
  }
  drop_answered r way f = r

  unfoldable pub record_handshake : Relay S → Direction → Frame → Option String → Relay S
  record_handshake r agent_to_client (response i (result raw)) (some m) = record r {
    handshake = record_answer r.handshake m raw;
  }
  record_handshake r way f label = r

  unfoldable pub ask : Relay S → Direction → Frame → Relay S
  ask r agent_to_client (request i m p) = record r {
    unanswered = r.unanswered ++ request i m p ∷ [];
  }
  ask r way f = r

  unfoldable pub announce_after_handshake :
      Relay S → Direction → Frame → Option String → Relay S × List Action
  unfolding announce
  announce_after_handshake r agent_to_client (response i payload) (some m) = announce h r m false
  announce_after_handshake r way f label = (r, [])

  unfoldable pub dispatch :
      Relay S
      → Direction
      → Frame
      → Option String
      → Option String
      → Disposition
      → Relay S × List Action
  unfolding ask announce_after_handshake
  dispatch r way f label ends forwards =
      let (r', sent) = forward h (ask r way f) way f ends in
      let (r'', told) = announce_after_handshake r' way f label in (r'', sent ++ told)
  dispatch r way f label ends (rewrites g) = forward h r way g none
  dispatch r way f label ends intercepts = (r, inspector_frame way (to_line h.printer f) label ∷ [])

  -- What the relay remembers of a frame.
  unfoldable pub remember : Relay S → Direction → Frame → Option String → Relay S
  unfolding ends_turn observe_session forget_ended drop_answered record_handshake
  remember r way f label =
      record_handshake
        (drop_answered (forget_ended (observe_session r way f) (ends_turn r way f label)) way f) way
        f label

  unfoldable pub route : Relay S → Direction → Frame → Option String → Relay S × List Action
  unfolding remember dispatch ends_turn
  route r way f label =
      let (d, done) = h.on_frame way f in
      let (r', sent) = dispatch (remember r way f label) way f label (ends_turn r way f label) d in
      (r', done ++ sent)

  -- From the rebinding on.
  unfoldable pub relay_frame : Relay S → Direction → Frame → Relay S × List Action
  unfolding rebind with_servers label_of route
  relay_frame r way f =
      let (r1, f1) = rebind r way f in
      let (r2, f2) = with_servers r1 way f1 in
      let (seen, answered) = observe r2.correlator way f2 in
      route (record r2 { correlator = seen }) way f2 (label_of f2 answered)

  extends : Option String → Bool
  extends none = false
  extends (some m) = is_extension m

  unless_recorded : Frame → Relay S × Option (List Action) → Relay S × List Action
  unfolding relay_frame
  unless_recorded f (r, some sent) = (r, sent)
  unless_recorded f (r, none) = relay_frame r client_to_agent f

  unfoldable pub handle_frame : Relay S → Direction → Frame → Relay S × List Action
  unfolding extends unless_recorded
  handle_frame r client_to_agent f =
      if extends (method f)
      then (r, handle_extension h r f)
      else unless_recorded f (answer_from_recording h r f)
  handle_frame r agent_to_client f = relay_frame r agent_to_client f

  -- The new relay, and all that it sends. A line that is no frame is forwarded as it is.
  unfoldable pub handle : Relay S → Direction → String → Relay S × List Action
  unfolding handle_frame
  handle r way text = elim (parse h.from_str text) [
    | err e ↦ (r, line way text ∷ [])
    | ok f ↦ handle_frame r way f
  ]
