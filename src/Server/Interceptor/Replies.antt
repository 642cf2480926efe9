-- ===== src/Server/Interceptor/Replies.antt =====
-- workspace_interceptor.rs: who answers a request of the agent.
use mjx_acp_agent.Prelude.{
  ℕ, String, Option, none, [], ◌∷◌, ◌≡◌, ◌⊎◌, ◌≢◌, inl, inr, refl, ap, true, false, Result, ok, err,
  Result-cases, Option-cases, Bool-cases, ◌==◌, ==→≡, string_eq, arith,
}
use mjx_acp_agent.Core.Frame.{
  Frame, RequestId, RawValue, JsonRpcError, invalid_params, method_not_found, request, response,
  ResponsePayload, result, error,
}
use mjx_acp_agent.Core.Frame
use mjx_acp_agent.Core.Method.{is_mcp_over_acp}
use mjx_acp_agent.Core.Method.Client
use mjx_acp_agent.Workspace.Disk.{FileSystem}
use mjx_acp_agent.Workspace.Connection.{Workspace}
use mjx_acp_agent.Server.McpHost.{
  McpHost, connect, connect_started, disconnect, take, launch_for, handle as host_handle,
}
use mjx_acp_agent.Core.Method.Client.{mcp_connect, mcp_disconnect, mcp_message}
use mjx_acp_agent.Server.Relay.Routing.{forwards, intercepts}
use mjx_acp_agent.Server.Interceptor.{
  ClientRequest, reads_text_file, writes_text_file, creates_terminal, terminal_outputs,
  terminal_waits, terminal_kills, terminal_releases, Readers, World, Interceptor, Answer,
  client_request, is_ours,
}
use mjx_acp_agent.Server.Interceptor.Served.{
  serve, handle, run, on_agent_frame, replies_to, reply_frame, host_answer,
}
use mjx_acp_agent.Server.Interceptor.Requests.{is_wait, wait_read}

module _ {V E : Type 0} (readers : Readers V E) where
  serve-answers :
      (F : FileSystem) (w : World) (disk : F.Disk) (ws : Workspace) (r : ClientRequest)
      → is_wait readers r ≡ false
      → (serve readers F w disk ws r).answer ≢ none
  unfolding serve
  serve-answers F w disk ws (reads_text_file path line limit) h e = cc
  serve-answers F w disk ws (writes_text_file path contents) h e = cc
  serve-answers F w disk ws (creates_terminal r) h e = cc
  serve-answers F w disk ws (terminal_outputs id) h e = cc
  serve-answers F w disk ws (terminal_waits id) h e = cc
  serve-answers F w disk ws (terminal_kills id) h e = cc
  serve-answers F w disk ws (terminal_releases id) h e = cc

  handle-waits :
      (F : FileSystem) (w : World) (disk : F.Disk) (ws : Workspace) (method : String) (f : Frame)
      → (handle readers F w disk ws method f).answer ≡ none
      → method ≡ Client.terminal_wait_for_exit
  unfolding handle
  handle-waits F w disk ws method f waits = elim (Result-cases (client_request readers method f)) [
    | inr (e, refused) ↦ ground (arith, refused, waits)
    | inl (r, read) ↦ elim (Bool-cases (method == Client.terminal_wait_for_exit)) [
      | inl hit ↦ ==→≡ method Client.terminal_wait_for_exit hit
      | inr miss ↦ absurd (
          serve-answers F w disk ws r (wait_read readers f method r read miss)
            (ground (arith, read, waits)))
    ]
  ]

  connect-answers :
      (mcp : McpHost) (v : V) (started : Result ℕ String)
      → host_answer (connect readers.host mcp v started).1 ≢ none
  unfolding connect connect_started host_answer
  connect-answers mcp v (ok server) waits = elim (Result-cases (launch_for readers.host mcp v)) [
    | inr (e, refused) ↦ ground (arith, refused, waits)
    | inl (launch, found) ↦ ground (arith, found, waits)
  ]
  connect-answers mcp v (err e) waits = elim (Result-cases (launch_for readers.host mcp v)) [
    | inr (e', refused) ↦ ground (arith, refused, waits)
    | inl (launch, found) ↦ ground (arith, found, waits)
  ]

  disconnect-answers :
      (mcp : McpHost) (v : V) → host_answer (disconnect readers.host mcp v).1 ≢ none
  unfolding disconnect host_answer
  disconnect-answers mcp v waits = elim (Result-cases (take readers.host mcp v).1) [
    | inr (e, refused) ↦ ground (arith, refused, waits)
    | inl (server, found) ↦ ground (arith, found, waits)
  ]

  host-waits :
      (mcp : McpHost) (method : String) (v : V) (started : Result ℕ String)
      → host_answer (host_handle readers.host mcp method v started).1 ≡ none
      → method ≡ mcp_message
  unfolding host_handle host_answer
  host-waits mcp method v started waits = elim (Bool-cases (method == mcp_connect)) [
    | inl connects ↦ absurd (connect-answers mcp v started (ground (arith, connects, waits)))
    | inr other ↦ elim (Bool-cases (method == mcp_disconnect)) [
      | inl disconnects ↦
          absurd (disconnect-answers mcp v (ground (arith, other, disconnects, waits)))
      | inr neither ↦ elim (Bool-cases (method == mcp_message)) [
        | inl message ↦ ==→≡ method mcp_message message
        | inr unknown ↦ ground (arith, other, neither, unknown, waits)
      ]
    ]
  ]

  run-waits :
      (F : FileSystem) (w : World) (s : Interceptor F) (method : String) (f : Frame)
      → (run readers F w s method f).1 ≡ none
      → (method ≡ Client.terminal_wait_for_exit) ⊎ (method ≡ mcp_message)
  unfolding run
  run-waits F w s method f waits = elim (Bool-cases (is_mcp_over_acp method)) [
    | inl mcp ↦ inr (
        host-waits s.mcp method (readers.value (Frame.params f)) w.started
          (ground (arith, mcp, waits)))
    | inr ours ↦ inl (handle-waits F w s.disk s.workspace method f (ground (arith, ours, waits)))
  ]

  replied :
      (F : FileSystem) (w : World) (i : RequestId) (a : Result Answer JsonRpcError)
      → ((a : Answer) → (raw : RawValue) × (readers.to_raw_value a ≡ ok raw))
      → (payload : ResponsePayload) × (reply_frame readers F w i a ≡ response i payload)
  unfolding reply_frame
  replied F w i (err e) writes = (error e, refl)
  replied F w i (ok a) writes =
      let (raw, written) = writes a in (result raw, rw (written, reply_frame) refl)

  -- A request of the agent is forwarded, and nothing else is done about it, if it is not one for the server to answer;
  -- otherwise the browser never sees it, and it is answered by one response under its own id, except that a wait for a
  -- terminal's exit, or a message to an MCP server, may have no answer yet. It is supposed that serde_json can write
  -- every answer.
  pub request_answered :
      (F : FileSystem) (w : World) (s : Interceptor F) (i : RequestId) (method : String)
      (q : Option RawValue)
      → ((a : Answer) → (raw : RawValue) × (readers.to_raw_value a ≡ ok raw))
      → let (_, disposition, replies, _) = on_agent_frame readers F w s (request i method q) in
        ((is_ours s.mcp method ≡ false)
          × (on_agent_frame readers F w s (request i method q) ≡ (s, forwards, [], ([], []))))
        ⊎ ((is_ours s.mcp method ≡ true)
            × (disposition ≡ intercepts)
            × (((payload : ResponsePayload) × (replies ≡ response i payload ∷ []))
                ⊎ ((replies ≡ [])
                    × ((method ≡ Client.terminal_wait_for_exit) ⊎ (method ≡ mcp_message)))))
  unfolding on_agent_frame replies_to
  request_answered F w s i method q writes = elim (Bool-cases (is_ours s.mcp method)) [
    | inr theirs ↦ inl (theirs, rw (theirs, on_agent_frame) refl)
    | inl ours ↦
        rw (ours, on_agent_frame)
          (inr (
            refl,
            refl,
            elim (Option-cases (run readers F w s method (request i method q)).1) [
              | inl waits ↦ rw waits (inr (refl, run-waits F w s method (request i method q) waits))
              | inr (a, answered) ↦
                  rw answered (
                    let (payload, is) = replied F w i a writes in
                    inl (payload, ap (λ f. f ∷ []) is))
            ],
          ))
  ]
