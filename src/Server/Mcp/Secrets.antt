-- ===== src/Server/Mcp/Secrets.antt =====
-- What the agent learns of the configured MCP servers.
use mathlib.Core.List.{append_assoc}
use mjx_acp_agent.Prelude.{
  ◌++◌, if◌then◌else◌, inl, inr, Option-cases, ◌⊎◌, ◌≢◌, Bool, any, sym, ap,
}
use mjx_acp_agent.Prelude.{
  any, ◌⊎◌, List, arith, ◌≡◌, Option, String, [], ◌∷◌, ◌==◌, string_eq, refl, true, false, none,
  map,
}
use mjx_acp_agent.Server.Mcp.{
  declared_names, to_wire, offer_one, merge_servers, offer, Transports, transport, wire_server,
  WireServer, skip_reason, McpServerConfig, McpServerKind, stdio, http, sse, acp,
}

-- A server without what this process runs for it: its command, its arguments and its environment.
abbrev pub redacted_kind : McpServerKind → McpServerKind
redacted_kind (acp launch) = acp (record { command = ""; args = []; env = [] })
redacted_kind kind = kind

abbrev pub redacted : McpServerConfig → McpServerConfig
redacted server = record server { kind = redacted_kind server.kind }

redacted-wire :
    (name : String) (kind : McpServerKind)
    → wire_server name (redacted_kind kind) ≡ wire_server name kind
unfolding wire_server
redacted-wire name (acp launch) = refl
redacted-wire name (stdio launch) = refl
redacted-wire name (http e) = refl
redacted-wire name (sse e) = refl

redacted-skip :
    (u : Option String) (name : String) (kind : McpServerKind) (t : Transports)
    → skip_reason (record { name = name; kind = redacted_kind kind; unavailable = u }) t
      ≡ skip_reason (record { name = name; kind = kind; unavailable = u }) t
unfolding skip_reason transport
redacted-skip u name (acp launch) t = ground arith
redacted-skip u name (stdio launch) t = refl
redacted-skip u name (http e) t = refl
redacted-skip u name (sse e) t = refl

if_same {ℓ} : {A : Type ℓ} (b : Bool) (x : A) → (if b then x else x) ≡ x
if_same true x = refl
if_same false x = refl

module _ {V : Type 0} (to_value : WireServer → Option V) (name_of : V → Option String) where
  redacted-to_wire :
      (server : McpServerConfig)
      → to_wire to_value name_of (redacted server) ≡ to_wire to_value name_of server
  unfolding to_wire
  redacted-to_wire server = ap to_value (redacted-wire server.name server.kind)

  redacted-offer_one :
      (declared : List String) (t : Transports) (server : McpServerConfig)
      → offer_one to_value name_of declared t (redacted server)
        ≡ offer_one to_value name_of declared t server
  unfolding offer_one
  redacted-offer_one declared t server = elim (Option-cases (skip_reason server t)) [
    | inl e ↦
        rw (redacted-skip server.unavailable server.name server.kind t, e, redacted-to_wire server)
    | inr (r, e) ↦ rw (redacted-skip server.unavailable server.name server.kind t, e)
  ]

  redacted-offer :
      (declared : List String) (t : Transports) (servers : List McpServerConfig)
      → offer to_value name_of declared t (map redacted servers)
        ≡ offer to_value name_of declared t servers
  unfolding offer
  redacted-offer declared t [] = refl
  redacted-offer declared t (server ∷ servers) =
      rw (redacted-offer_one declared t server, redacted-offer declared t servers)

  -- What is put into a session's request is the same whatever commands, arguments and environments the
  -- servers reached over ACP have, so none of them, and none of their credentials, reaches the agent.
  pub secrets_stay :
      (existing : List V) (servers : List McpServerConfig) (t : Transports)
      → merge_servers to_value name_of existing (map redacted servers) t
        ≡ merge_servers to_value name_of existing servers t
  unfolding merge_servers
  secrets_stay existing servers t =
      rw (redacted-offer (declared_names to_value name_of existing) t servers)

  offer-append :
      (declared : List String) (t : Transports) (xs ys : List McpServerConfig)
      → offer to_value name_of declared t (xs ++ ys)
        ≡ offer to_value name_of declared t xs ++ offer to_value name_of declared t ys
  unfolding offer
  offer-append declared t [] ys = refl
  offer-append declared t (x ∷ xs) ys = rw (offer-append declared t xs ys) (
      sym (
        append_assoc (offer_one to_value name_of declared t x)
          (offer to_value name_of declared t xs) (offer to_value name_of declared t ys)))

  nothing :
      (declared : List String) (t : Transports) (server : McpServerConfig)
      → (skip_reason server t ≢ none) ⊎ (any (λ n. n == server.name) declared ≡ true)
      → offer_one to_value name_of declared t server ≡ []
  unfolding offer_one
  nothing declared t server (inr known) = rw known
  nothing declared t server (inl reason) = elim (Option-cases (skip_reason server t)) [
    | inl e ↦ absurd (reason e)
    | inr (r, e) ↦ rw e (if_same (any (λ n. n == server.name) declared) [])
  ]

  -- A server that cannot be offered, because it is unavailable or its transport was not declared, adds
  -- nothing, wherever it stands among the configured ones; nor does one whose name the client declared.
  pub skipped_adds_nothing :
      (existing : List V) (before after : List McpServerConfig) (server : McpServerConfig)
      (t : Transports)
      → (skip_reason server t ≢ none)
        ⊎ (any (λ n. n == server.name) (declared_names to_value name_of existing) ≡ true)
      → merge_servers to_value name_of existing (before ++ server ∷ after) t
        ≡ merge_servers to_value name_of existing (before ++ after) t
  unfolding merge_servers
  skipped_adds_nothing existing before after server t h =
      rw
        (
          offer-append (declared_names to_value name_of existing) t before (server ∷ after),
          offer-append (declared_names to_value name_of existing) t before after,
        )
        (unfold offer in rw (nothing (declared_names to_value name_of existing) t server h))
