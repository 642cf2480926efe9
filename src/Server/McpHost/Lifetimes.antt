-- ===== src/Server/McpHost/Lifetimes.antt =====
-- mcp_host.rs: how long a connection is open, and whom the agent's answers reach.
use mjx_acp_agent.Prelude.{
  ℕ, suc, ◌+◌, ◌<◌, String, Option, none, some, List, [], ◌∷◌, ◌≡◌, refl, Bool, true, false, arith,
  string_eq, ap, ◌∙◌, sym, length, if◌then◌else◌, any, ==-refl, ℤ,
}
use mathlib.Core.Path.{subst}
use Prim.Native.Nat.{◌^◌}
use text.Mathlib.TextPositions.{starts_with-append}
use mjx_acp_agent.Prelude.Decimal.{display}
use mjx_acp_agent.Prelude.Map.{lookup, lookup-insert}
use mjx_acp_agent.Core.Method.Agent.{mcp_message as agent_mcp_message}
use mjx_acp_agent.Core.Frame.{RequestId, number, id_eq, RawValue, ResponsePayload, request}
use mjx_acp_agent.Mcp.{asked, reply_of}
use mjx_acp_agent.Server.Mcp.{McpServerConfig}
use mjx_acp_agent.Server.McpHost.{
  McpHost, HostJson, answers_server, to_agent_sends, question_id, new, to_agent, claim_response,
  route, agent_id_prefix,
}
use mjx_acp_agent.Server.McpHost.Numbers.{HostOp, server_says, host_step, host_run, takes}
use mjx_acp_agent.Server.McpHost.Connections.{
  Fresh, Fresh-run, new-Fresh, questions_run, questioned, questioned-Onward,
}

module _ {V : Type 0} (json : HostJson V) where
  asked_now :
      (h : McpHost) (server : ℕ) (i : RequestId) (room : ℕ)
      → Fresh json (suc room) h
      → (lookup (question_id h.next_id) (questioned json h server i).awaiting_agent
          ≡ some (server, i))
        × (h.next_id < (questioned json h server i).next_id)
  unfolding questioned
  asked_now h server i room f = (
    lookup-insert (question_id h.next_id) (question_id h.next_id) (server, i) h.awaiting_agent
        ∙ rw (==-refl (question_id h.next_id)) refl,
    omega (arith, f.fits),
  )

  routed :
      (h : McpHost) (id : RequestId) (payload : ResponsePayload) (b : Bool) (server : ℕ)
      (i : RequestId)
      → lookup id h.awaiting_agent ≡ (if b then none else some (server, i))
      → (route json h id payload).1
        ≡ (if b then [] else answers_server server i (reply_of payload) ∷ [])
  unfolding route
  routed h id payload true server i held = rw (held, route)
  routed h id payload false server i held = rw (held, route)

  -- What the claim of a question's id comes to.
  claimed :
      (h : McpHost) (n : ℕ) (payload : ResponsePayload) (b : Bool) (server : ℕ) (i : RequestId)
      → lookup (question_id n) h.awaiting_agent ≡ (if b then none else some (server, i))
      → ((claim_response json h (question_id n) payload).1 ≡ true)
        × ((claim_response json h (question_id n) payload).2
            ≡ (if b then [] else answers_server server i (reply_of payload) ∷ []))
  unfolding claim_response
  claimed h n payload b server i held =
      rw (starts_with-append agent_id_prefix (display n), claim_response)
        (refl, routed h (question_id n) payload b server i held)

  answered_once :
      (h : McpHost) (server : ℕ) (i own : RequestId) (after : List (HostOp V))
      (payload : ResponsePayload)
      → Fresh json (suc (length after)) h
      → own ≡ question_id h.next_id
      → ((claim_response json (host_run json (questioned json h server i) after) own payload).1
          ≡ true)
        × ((claim_response json (host_run json (questioned json h server i) after) own payload).2
            ≡ (if any (takes json own) after
                then []
                else answers_server server i (reply_of payload) ∷ []))
  answered_once h server i own after payload f e =
      let (there, past) = asked_now h server i (length after) f in
      let f' = (questioned-Onward json (length after) h server i f).0 in
      let t = questioned json h server i in
      let held =
        questions_run json h.next_id t after f' past
        ∙ ap (λ o. if any (takes json (question_id h.next_id)) after then none else o) there in
      subst
        (λ own.
          ((claim_response json (host_run json t after) own payload).1 ≡ true)
          × ((claim_response json (host_run json t after) own payload).2 ≡ (
              if any (takes json own) after
              then []
              else answers_server server i (reply_of payload) ∷ [])))
        (sym e) (claimed (host_run json t after) h.next_id payload _ server i held)

  -- An answer of the agent to a question that a server put to it goes back to that server, under the server's own id for
  -- the question, if no answer to that question came before, and otherwise to nobody; it is kept from the browser either
  -- way. An answer under a number, as the relay's ids are, is left to the relay. The question's id is the one that it was
  -- sent to the agent with; whatever else is connected, asked and answered before and after, below 2 ^ 64 numbers.
  pub question_answered :
      (servers : List McpServerConfig) (before after : List (HostOp V)) (connection method : String)
      (server : ℕ) (i own : RequestId) (params q : Option RawValue) (payload : ResponsePayload)
      (n : ℤ)
      → length before + length after + 2 < 2 ^ 64
      → (to_agent json
          (host_run json (new servers) before)
          connection
          server
          (asked i method params)).1
        ≡ to_agent_sends (request own agent_mcp_message q) ∷ []
      → let h =
          host_run json
            (host_step json
              (host_run json (new servers) before)
              (server_says connection server (asked i method params)))
            after in
        ((claim_response json h own payload).1 ≡ true)
        × ((claim_response json h own payload).2 ≡ (
            if any (takes json own) after
            then []
            else answers_server server i (reply_of payload) ∷ []))
        × (claim_response json h (number n) payload ≡ (h, false, []))
  unfolding host_step to_agent claim_response questioned
  question_answered servers before after connection method server i own params q payload n room
        sent =
      let h = host_run json (new servers) before in
      let f : Fresh json (suc (length after)) h =
        Fresh-run json (new servers) before (suc (length after))
          (new-Fresh json servers _ (omega (arith, room))) in
      let same : own ≡ question_id h.next_id = cc in
      let (ours, once) = answered_once h server i own after payload f same in (ours, once, refl)
