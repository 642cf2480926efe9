-- ===== src/Tests/Server.antt =====
-- The theorems on the server crate at concrete inputs.
use mjx_acp_agent.Server.Relay.Sink.Takeover.{takeover}
use mjx_acp_agent.Server.Sessions.Forgetting.{forget_answered, load_request}
use mjx_acp_agent.Core.Method.Client.{elicitation_create}
use mjx_acp_agent.Server.Relay.Handshake
use mjx_acp_agent.Server.Relay.Handshake.Replay
use mjx_acp_agent.Server.Relay.Sink.Takeover
use mjx_acp_agent.Server.Relay.Handshake.{Handshake, JsonReader}
use mjx_acp_agent.Server.Relay.Sink.{Attached, attach, send, detach, is_current}
use mjx_acp_agent.Core.Method.Agent.{session_new, session_load, session_close, session_prompt}
use mjx_acp_agent.Server.Sessions.Turns.{turn_ends, prompt_answer, ended, prompt_sent, InTurn}
use mjx_acp_agent.Tests.Data.{words, readers, acp}
use mjx_acp_agent.Server.Sessions.Demultiplex.{demultiplex, fold_session, observe_updates}
use mjx_acp_agent.Prelude.Map.{remove, insert, lookup, lookup-nil}
use mjx_acp_agent.Server.Sessions.Agent.{remove_first, observe_from_agent}
use mjx_acp_agent.Server.Sessions.Client.{observe_from_client}
use mjx_acp_agent.Thread.Model.{idle, Thread}
use mjx_acp_agent.Server.Sessions.Tracked.{new_store-Tracked, observe_from_client-Tracked, Tracked}
use mjx_acp_agent.Server.Sessions.Reachable.{
  from_agent, reachable-Tracked, from_client, history, Event,
}
use mjx_acp_agent.Server.Sessions.Store.{new_store, SessionStore, thread, session_of_prompt}
use mjx_acp_agent.Server.IdBridge.{new, reattach, for_browser, for_agent}
use mjx_acp_agent.Prelude.{
  nat_eq, ◌≤◌, ok, ℕ, String, ◌==◌, false, ◌≢◌, List, pos, some, none, [], ◌∷◌, ◌≡◌, refl, arith,
  string_eq,
}
use mjx_acp_agent.Core.Frame.{internal, result, error, request, response, string, number, id_eq}
use mjx_acp_agent.Server.IdBridge
use mjx_acp_agent.Server.IdBridge.Delivery.{
  for_agent-Numbered, answers, stale_answer_dropped, asks, answer_delivered_once, Op, run, Numbered,
}

abbrev traffic : List Op
traffic = asks (string "b") ∷ answers (number (pos 9)) ∷ []

none-Numbered : Numbered 0 IdBridge.new
none-Numbered = record { last = refl; fresh = λ j h. lookup-nil (number (pos j)) }

one-Numbered : Numbered 1 (for_agent IdBridge.new (string "a")).0
one-Numbered = for_agent-Numbered (string "a") (omega arith) none-Numbered

stale_answer_dropped_example :
    (for_browser
      (run (reattach (for_agent IdBridge.new (string "a")).0) traffic)
      (number (pos 1))).1
    ≡ none
stale_answer_dropped_example =
    stale_answer_dropped 1 (for_agent IdBridge.new (string "a")).0 1 traffic one-Numbered
      (omega arith) (omega arith)

answer_delivered_once_example :
    ((for_browser
        (run (for_agent IdBridge.new (string "a")).0 traffic)
        (for_agent IdBridge.new (string "a")).1).1
      ≡ some (string "a"))
    × ((for_browser
          (for_browser
            (run (for_agent IdBridge.new (string "a")).0 traffic)
            (for_agent IdBridge.new (string "a")).1).0
          (for_agent IdBridge.new (string "a")).1).1
        ≡ none)
answer_delivered_once_example =
    answer_delivered_once 0 IdBridge.new (string "a") traffic none-Numbered (λ e. cc, tt)
      (omega arith)

demultiplex_example :
    thread (observe_updates readers (new_store acp) ("s1" ∷ "bad" ∷ "s2" ∷ "s1" ∷ [])) "s1"
    ≡ fold_session readers "s1" (thread (new_store acp) "s1") ("s1" ∷ "bad" ∷ "s2" ∷ "s1" ∷ [])
demultiplex_example = demultiplex readers (new_store acp) ("s1" ∷ "bad" ∷ "s2" ∷ "s1" ∷ []) "s1"

abbrev prompted : SessionStore acp
prompted =
    observe_from_client readers (new_store acp)
      (request (number (pos 1)) session_prompt (some "s1"))

prompt_sent_example :
    (t : Thread acp) × (thread prompted "s1" ≡ some t)
    × InTurn readers [] (words "hello" ∷ []) t
    × (session_of_prompt prompted (number (pos 1)) ≡ some "s1")
unfolding thread lookup
prompt_sent_example =
    prompt_sent readers (new_store acp) (number (pos 1)) "s1"
      (record { session_id = "s1"; prompt = words "hello" ∷ [] }) "s1" refl

in_flight : session_of_prompt prompted (number (pos 1)) ≡ some "s1"
in_flight =
    (prompt_sent readers (new_store acp) (number (pos 1)) "s1"
      (record { session_id = "s1"; prompt = words "hello" ∷ [] }) "s1" refl).3

abbrev events : List Event
events =
    from_client (request (number (pos 1)) session_prompt (some "s1"))
    ∷ from_agent (request (string "q") elicitation_create (some "s2"))
    ∷ from_client (response (string "q") (result "{}"))
    ∷ from_agent (response (number (pos 1)) (result "end_turn"))
    ∷ []

reachable-Tracked_example : Tracked (history readers (new_store acp) events)
reachable-Tracked_example = reachable-Tracked readers events

prompt_answer_example :
    (thread
        (observe_from_agent readers prompted (response (number (pos 1)) (result "end_turn")))
        "s1"
      ≡ ended readers (some "end_turn") (thread prompted "s1"))
    × (session_of_prompt
          (observe_from_agent readers prompted (response (number (pos 1)) (result "end_turn")))
          (number (pos 1))
        ≡ none)
prompt_answer_example =
    prompt_answer readers prompted (number (pos 1)) "s1" (result "end_turn") "s1" in_flight

turn_ends_example :
    (t : Thread acp) × (thread
        (observe_from_agent readers prompted (response (number (pos 1)) (error (internal "gone"))))
        "s1"
      ≡ some t)
    × (t.status ≡ idle)
    × (t.stop_reason ≡ some "cancelled")
turn_ends_example =
    turn_ends readers prompted (number (pos 1)) "s1" (error (internal "gone")) "cancelled" tracked
      in_flight refl
  where
    tracked : Tracked prompted
    tracked =
        observe_from_client-Tracked readers (new_store acp)
          (request (number (pos 1)) session_prompt (some "s1")) (new_store-Tracked)

abbrev asked : SessionStore acp
asked =
    observe_from_client readers (new_store acp) (request (number (pos 1)) session_load (some "s1"))

load_request_example :
    (thread asked "s2" ≡ thread (new_store acp) "s2")
    × (lookup (string "q") asked.pending_elicitations ≢ some "s1")
    × (lookup (number (pos 1)) asked.pending_session_states ≡ some "s1")
load_request_example =
    load_request readers (new_store acp) (number (pos 1)) "s1" "s1" "s2" (string "q") refl

abbrev closing : SessionStore acp
closing = observe_from_client readers prompted (request (number (pos 2)) session_close (some "s1"))

free :
    (session_of_prompt prompted (number (pos 2)) ≡ none)
    × (remove_first (number (pos 2)) prompted.pending_session_creations ≡ none)
    × (lookup (number (pos 2)) prompted.pending_session_states ≡ none)
unfolding session_of_prompt observe_from_client lookup insert remove remove_first
free = (refl, refl, refl)

forget_answered_example :
    (thread closing "s1" ≡ thread prompted "s1")
    × (thread (observe_from_agent readers closing (response (number (pos 2)) (result "{}"))) "s1"
        ≡ none)
    × (session_of_prompt
          (observe_from_agent readers closing (response (number (pos 2)) (result "{}")))
          (number (pos 1))
        ≢ some "s1")
    × (thread
          (observe_from_agent readers closing (response (number (pos 2)) (error (internal "no"))))
          "s1"
        ≡ thread prompted "s1")
    × (lookup
          (number (pos 2))
          (observe_from_agent readers closing
            (response (number (pos 2)) (error (internal "no")))).pending_forgets
        ≡ none)
forget_answered_example =
    forget_answered readers prompted (number (pos 2)) "s1" "{}" (internal "no") false "s1" "s1"
      (number (pos 1)) refl free.0 free.1 free.2

abbrev pub json : JsonReader
json = record {
  Value = String;
  E = String;
  from_str = λ r. ok r;
  at = λ v key. v;
  is_true = λ v. v == "true";
}

abbrev shaken : Handshake
shaken = record {
  initialized = some "true";
  new_session = some "s1";
  read_transports = none;
  replay_new_session = false;
}

abbrev asking : List Replay.Op
asking = Replay.lists_servers ∷ Replay.asks session_new ∷ Replay.answers session_new "s2" ∷ []

abbrev traffic_to_two : List Takeover.Op
traffic_to_two = Takeover.leaves 1 ∷ Takeover.sends (λ g. g == 2) ∷ []

abbrev one_attached : Attached
one_attached = record { generation = 1; sender = some 1 }

takeover_example :
    ((send (λ g. g == 2) (Takeover.run (attach one_attached).0 traffic_to_two)).1
      ≡ some (attach one_attached).1)
    × ((send
          (λ g. g == 2)
          (detach (Takeover.run (attach one_attached).0 traffic_to_two) (attach one_attached).1)).1
        ≡ none)
    × ((j : ℕ) → j ≤ 1 → is_current (Takeover.run (attach one_attached).0 traffic_to_two) j ≡ false)
takeover_example =
    takeover one_attached traffic_to_two (λ g. g == 2) (omega arith) (λ e. omega arith, (refl, tt))
      refl
