-- ===== src/Server/Interceptor/Requests.antt =====
-- workspace_interceptor.rs: how the params of a request are read.
use mathlib.Core.Path.{subst}
use mjx_acp_agent.Prelude.{
  String, none, some, List, [], ◌∷◌, ◌≡◌, inl, inr, refl, ap, Bool, true, false, Result, ok, err,
  ◌>>=◌, All, Bool-cases, ◌==◌, string_eq, arith, if◌then◌else◌,
}
use mjx_acp_agent.Core.Frame.{
  Frame, RequestId, RawValue, JsonRpcError, invalid_params, method_not_found, request, response,
  ResponsePayload, result, error,
}
use mjx_acp_agent.Core.Frame
use mjx_acp_agent.Core.Frame.Params.{Decoder, params_as}
use mjx_acp_agent.Core.Method.{matches, server_methods, is_server_provided_capability}
use mjx_acp_agent.Core.Method.Client
use mjx_acp_agent.Core.Method.Sides.{matches_elim}
use mjx_acp_agent.Workspace.Disk.{FileSystem}
use mjx_acp_agent.Workspace.Connection.{Workspace}
use mjx_acp_agent.Core.Method.Client.{mcp_connect, mcp_disconnect, mcp_message}
use mjx_acp_agent.Server.Interceptor.{
  ClientRequest, reads_text_file, writes_text_file, creates_terminal, terminal_outputs,
  terminal_waits, terminal_kills, terminal_releases, Readers, World, client_request, params,
}
use mjx_acp_agent.Server.Interceptor.Served.{handle, unchanged}

-- A method that an arm does not match is none of its literals.
matches-miss :
    (xs : List String) (m : String) → matches xs m ≡ false → All (λ x. (m == x) ≡ false) xs
matches-miss [] m h = tt
matches-miss (x ∷ xs) m h = elim (Bool-cases (m == x)) [
  | inl hit ↦ ground (arith, hit)
  | inr miss ↦ (miss, matches-miss xs m (ground (arith, miss)))
]

module _ {V E : Type 0} (readers : Readers V E) where
  missing :
      {T : Type 0} (decode : Decoder E T) (f : Frame)
      → Frame.params f ≡ none
      → params readers decode f ≡ err (invalid_params "missing params")
  unfolding params params_as
  missing decode f h = ground (arith, h)

  -- Every method that the server provides reads params.
  reads_params :
      (f : Frame)
      → Frame.params f ≡ none
      → (method : String) → is_server_provided_capability method ≡ true
      → client_request readers method f ≡ err (invalid_params "missing params")
  unfolding is_server_provided_capability client_request
  reads_params f h method ours =
      matches_elim (λ m. client_request readers m f ≡ err (invalid_params "missing params"))
        server_methods method
        (
          ap (λ r. r >>= λ q. ok (reads_text_file q.0 q.1 q.2)) (missing readers.read_request f h),
          (
            ap (λ r. r >>= λ q. ok (writes_text_file q.0 q.1)) (missing readers.write_request f h),
            (
              ap (λ r. r >>= λ q. ok (creates_terminal q)) (missing readers.create_request f h),
              (
                terminal terminal_outputs,
                (
                  terminal terminal_kills,
                  (terminal terminal_releases, (terminal terminal_waits, tt)),
                ),
              ),
            ),
          ),
        )
        ours
    where
      terminal :
          (kind : String → ClientRequest)
          → (params readers readers.terminal_request f >>= λ id. ok (kind id))
            ≡ err (invalid_params "missing params")
      terminal kind = ap (λ r. r >>= λ id. ok (kind id)) (missing readers.terminal_request f h)

  not_read :
      (f : Frame) (method : String)
      → is_server_provided_capability method ≡ false
      → client_request readers method f ≡ err (method_not_found method)
  unfolding is_server_provided_capability client_request
  not_read f method other =
      let (a, (b, (c, (d, (e, (g, (i, _))))))) = matches-miss server_methods method other in
      rw (a, b, c, d, i, e, g) refl

  -- A request without params leaves the disk and the workspace as they are, and is answered that its params are missing if
  -- its method is one that the server provides, and otherwise that there is no such method.
  pub handle-missing_params :
      (F : FileSystem) (w : World) (disk : F.Disk) (ws : Workspace) (method : String) (f : Frame)
      → Frame.params f ≡ none
      → handle readers F w disk ws method f
        ≡ unchanged readers F w disk ws (
            some (
              err (
                if is_server_provided_capability method
                then invalid_params "missing params"
                else method_not_found method)))
  unfolding handle
  handle-missing_params F w disk ws method f h =
      elim (Bool-cases (is_server_provided_capability method)) [
        | inl ours ↦ rw (ours, reads_params f h method ours, handle) refl
        | inr other ↦ rw (other, not_read f method other, handle) refl
      ]

  -- Only a wait for a terminal's exit is read as one.
  abbrev pub is_wait : ClientRequest → Bool
  is_wait (terminal_waits id) = true
  is_wait _ = false

  never_waits :
      {T : Type 0} (kind : T → ClientRequest) (x : Result T JsonRpcError) (r : ClientRequest)
      → ((t : T) → is_wait (kind t) ≡ false)
      → (x >>= λ t. ok (kind t)) ≡ ok r
      → is_wait r ≡ false
  never_waits kind (ok t) r quiet h = subst (λ q. is_wait q ≡ false) (ground (arith, h)) (quiet t)
  never_waits kind (err e) r quiet h = cc

  -- A branch that reads another request than a wait, and what is behind it.
  other_request :
      {T : Type 0} (is_it : Bool) (x : Result T JsonRpcError) (kind : T → ClientRequest)
      (y : Result ClientRequest JsonRpcError) (r : ClientRequest)
      → ((t : T) → is_wait (kind t) ≡ false)
      → (if is_it then (x >>= λ t. ok (kind t)) else y) ≡ ok r
      → (y ≡ ok r → is_wait r ≡ false)
      → is_wait r ≡ false
  other_request true x kind y r quiet h behind = never_waits kind x r quiet h
  other_request false x kind y r quiet h behind = behind h

  pub wait_read :
      (f : Frame) (method : String) (r : ClientRequest)
      → client_request readers method f ≡ ok r
      → (method == Client.terminal_wait_for_exit) ≡ false
      → is_wait r ≡ false
  unfolding client_request
  wait_read f method r read other =
      let on = params readers readers.terminal_request f in
      other_request (method == Client.fs_read_text_file) (params readers readers.read_request f)
        (λ (path, line, limit). reads_text_file path line limit) _ r (λ t. refl) read
        λ read.
          other_request (method == Client.fs_write_text_file)
            (params readers readers.write_request f)
            (λ (path, contents). writes_text_file path contents) _ r (λ t. refl) read
            λ read.
              other_request (method == Client.terminal_create)
                (params readers readers.create_request f) creates_terminal _ r (λ t. refl) read
                λ read.
                  other_request (method == Client.terminal_output) on terminal_outputs _ r
                    (λ t. refl) read
                    λ read.
                      other_request (method == Client.terminal_kill) on terminal_kills _ r
                        (λ t. refl)
                        (without_wait _ _ (method == Client.terminal_wait_for_exit) other read)
                        λ read.
                          other_request (method == Client.terminal_release) on terminal_releases
                            (err (method_not_found method)) r (λ t. refl) read (λ h. cc)
    where
      without_wait :
          (x y : Result ClientRequest JsonRpcError) (b : Bool)
          → b ≡ false
          → (if b then x else y) ≡ ok r
          → y ≡ ok r
      without_wait x y true e h = cc
      without_wait x y false e h = h
