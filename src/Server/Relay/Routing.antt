-- ===== src/Server/Relay/Routing.antt =====
-- relay.rs: `Relay::handle` and what it calls, on one line from either side. What the relay is generic in
-- or leaves to others is a parameter: serde_json, the interceptor, and the merging of MCP servers.
use mjx_acp_agent.Thread.Model.{Thread}
use mjx_acp_agent.Core.Method.Agent.{initialize}
use mjx_acp_agent.Core.Frame.Line.{Printer, to_line}
use mjx_acp_agent.Core.Frame.Params.{Decoder, params_as}
use mjx_acp_agent.Server.Sessions.Store.{Decoders, SessionStore, thread, cancel_session}
use mjx_acp_agent.Thread.Schema.{Schema}
use mjx_acp_agent.Prelude.{
  String, Option, none, some, List, [], ◌∷◌, Bool, true, ◌==◌, string_eq, option_beq, not,
  if◌then◌else◌, Result, ok, err, map,
}
use mjx_acp_agent.Core.Frame.{
  invalid_params, method_not_found, internal, params, RequestId, Wire, RawValue, ResponsePayload,
  Frame, id_eq, result, error, request, response,
}
use mjx_acp_agent.Core.Correlator.{MethodCorrelator, Direction, agent_to_client}
use mjx_acp_agent.Server.Relay.Handshake.{Handshake, Transports, JsonReader, recorded, transports}
use mjx_acp_agent.Server.IdBridge.{for_browser, IdBridge}

pub data Disposition : Type 0 where
  forwards : Disposition
  rewrites : Frame → Disposition
  intercepts : Disposition

-- What the relay sends: a line to one side, or one of its own notifications to the browser.
pub data Action : Type 0 where
  line : Direction → String → Action
  turn_ended : String → String → Action
  agent_info : Bool → Transports → Action
  inspector_frame : Direction → String → Option String → Action

pub record Hooks (S : Schema) (E : Type 0) : Type 1 where
  pub from_str : String → Result Wire E
  pub printer : Printer
  pub readers : Decoders S E
  pub json : JsonReader
  pub on_frame : Direction → Frame → Disposition × List Action
  -- with no server configured, this is never asked
  pub has_servers : Bool
  pub merge_mcp_servers : Frame → Transports → Option Frame
  -- the string members `sessionId` and `stopReason` of a JSON object
  pub session_in : RawValue → Option String
  pub stop_reason_in : RawValue → Option String
  pub replay_request : Decoder E String
  pub thread_json : Option (Thread S) → Result RawValue E
  pub display : E → String

pub record Relay (S : Schema) : Type 0 where
  pub correlator : MethodCorrelator
  pub ids : IdBridge
  pub handshake : Handshake
  pub unanswered : List Frame
  pub sessions : SessionStore S

abbrev pub session_replay : String
session_replay = "_mjx/session/replay"

module _ {S : Schema} {E : Type 0} (h : Hooks S E) where
  named_in : Option RawValue → Option String
  named_in none = none
  named_in (some raw) = h.session_in raw

  unfoldable pub session_of : Frame → Option String
  unfolding named_in
  session_of f = named_in (params f)

  or_cancelled : Option String → String
  or_cancelled none = "cancelled"
  or_cancelled (some reason) = reason

  unfoldable pub stop_reason_of : ResponsePayload → String
  unfolding or_cancelled
  stop_reason_of (error e) = "cancelled"
  stop_reason_of (result r) = or_cancelled (h.stop_reason_in r)

  -- `unanswered.retain(...)`
  unfoldable pub keep : (Frame → Bool) → List Frame → List Frame
  keep p [] = []
  keep p (f ∷ fs) = let rest = keep p fs in if p f then f ∷ rest else rest

  unfoldable pub forget_questions : Relay S → String → Relay S
  forget_questions r s = record r {
    unanswered = keep (λ asked. not (option_beq (session_of asked) (some s))) r.unanswered;
    sessions = (cancel_session r.sessions s).0;
  }

  unfoldable pub announce : Relay S → String → Bool → Relay S × List Action
  announce r method resumed =
      let (shaken, t) = transports h.json r.handshake in
      if method == initialize
      then (record r { handshake = shaken }, agent_info resumed t ∷ [])
      else (r, [])

  replay_result : RequestId → Result RawValue E → Frame
  replay_result i (ok raw) = response i (result raw)
  replay_result i (err e) = response i (error (internal (h.display e)))

  unfoldable pub replay : Relay S → RequestId → Result (Option String) E → Frame
  unfolding replay_result
  replay r i (ok (some s)) = replay_result i (h.thread_json (thread r.sessions s))
  replay r i (ok none) = response i (error (invalid_params "missing params"))
  replay r i (err e) = response i (error (invalid_params (h.display e)))

  unfoldable pub to_browser : Frame → Action
  to_browser f = line agent_to_client (to_line h.printer f)

  unfoldable pub handle_extension : Relay S → Frame → List Action
  unfolding replay to_browser
  handle_extension r (request i method p) =
      if method == session_replay
      then to_browser (replay r i (params_as h.replay_request (request i method p)))
        ∷ map to_browser r.unanswered
      else to_browser (response i (error (method_not_found method))) ∷ []
  handle_extension r _ = []

  -- The new relay and what it sends, if the handshake's recording answers the frame.
  recorded_answer :
      Relay S → RequestId → String → Handshake × Option RawValue → Relay S × Option (List Action)
  unfolding announce to_browser
  recorded_answer r i method (shaken, none) = (record r { handshake = shaken }, none)
  recorded_answer r i method (shaken, some raw) =
      let (r', told) = announce (record r { handshake = shaken }) method true in
      (r', some (to_browser (response i (result raw)) ∷ told))

  unfoldable pub answer_from_recording : Relay S → Frame → Relay S × Option (List Action)
  unfolding recorded_answer
  answer_from_recording r (request i method p) =
      recorded_answer r i method (recorded r.handshake method)
  answer_from_recording r _ = (r, none)

  owed : Relay S → Option RequestId → ResponsePayload → Option String → Relay S × List Action
  unfolding to_browser stop_reason_of
  owed r (some browser) payload ends = (r, to_browser (response browser payload) ∷ [])
  owed r none payload none = (r, [])
  owed r none payload (some s) = (r, turn_ended s (stop_reason_of payload) ∷ [])

  unfoldable pub forward : Relay S → Direction → Frame → Option String → Relay S × List Action
  unfolding owed
  forward r agent_to_client (response i payload) ends =
      let (ids, browser) = for_browser r.ids i in owed (record r { ids = ids }) browser payload ends
  forward r way f ends = (r, line way (to_line h.printer f) ∷ [])
