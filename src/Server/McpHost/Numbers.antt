-- ===== src/Server/McpHost/Numbers.antt =====
-- mcp_host.rs: what each operation does to the connections and the questions that were numbered before it.
use mathlib.Core.Path.{subst}
use mjx_acp_agent.Prelude.{
  ℕ, String, none, List, [], ◌∷◌, ◌≡◌, ◌≢◌, ◌⊎◌, inl, inr, refl, Bool, true, false, Result, ok, err,
  arith, Bool-cases, Result-cases, ==-ne, ◌==◌, string_eq, ap, ◌∙◌, if◌then◌else◌,
}
use mjx_acp_agent.Prelude.Map.{lookup, insert, remove, lookup-remove, lookup-insert, lookup-nil}
use mjx_acp_agent.Prelude.Decimal.Injective.{display_injective_behind}
use mjx_acp_agent.Core.Frame.{RequestId, string, number, null, id_eq, ResponsePayload}
use text.Mathlib.Text.{starts_with}
use text.Mathlib.TextPositions.{starts_with-append}
use mjx_acp_agent.Prelude.Decimal.{display}
use Prim.Native.String.{◌++◌ as str_append}
use mjx_acp_agent.Mcp.{FromServer, notified, asked}
use mjx_acp_agent.Server.McpHost.{
  McpHost, HostJson, agent_id_prefix, connection_name, question_id, counted, connect,
  connect_started, launch_for, disconnect, take, to_agent, claim_response, route, shutdown_all,
  named_connection,
}

-- What changes a host. A message changes nothing but what a server is asked.
pub data HostOp (V : Type 0) : Type 0 where
  connects : V → Result ℕ String → HostOp V
  disconnects : V → HostOp V
  server_says : String → ℕ → FromServer → HostOp V
  claims : RequestId → ResponsePayload → HostOp V
  shuts_all : HostOp V

pub connection_names_differ : (m n : ℕ) → m ≢ n → connection_name m ≢ connection_name n
connection_names_differ m n other e = other (display_injective_behind "mcp-" m n e)

pub question_ids_differ : (m n : ℕ) → m ≢ n → question_id m ≢ question_id n
question_ids_differ m n other e =
    other (display_injective_behind agent_id_prefix m n (ground (arith, e)))

-- A text without the prefix is the id of no question.
other_prefix :
    (text : String) (k : ℕ) → starts_with text agent_id_prefix ≡ false → string text ≢ question_id k
other_prefix text k theirs e =
    let ours = starts_with-append agent_id_prefix (display k) in
    let same : text ≡ str_append agent_id_prefix (display k) = ground (arith, e) in
    cc (subst (λ t. starts_with t agent_id_prefix ≡ false) same theirs)

module _ {V : Type 0} (json : HostJson V) where
  unfoldable pub host_step : McpHost → HostOp V → McpHost
  host_step h (connects params started) = (connect json h params started).0
  host_step h (disconnects params) = (disconnect json h params).0
  host_step h (server_says connection server event) = (to_agent json h connection server event).0
  host_step h (claims id payload) = (claim_response json h id payload).0
  host_step h shuts_all = (shutdown_all json h).0

  unfoldable pub host_run : McpHost → List (HostOp V) → McpHost
  host_run h [] = h
  host_run h (op ∷ ops) = host_run (host_step h op) ops

  -- Whether an operation ends a connection, or takes a question.
  abbrev pub closes : String → HostOp V → Bool
  closes connection (disconnects params) = named_connection json params == connection
  closes connection shuts_all = true
  closes connection _ = false

  abbrev pub takes : RequestId → HostOp V → Bool
  takes question (claims id payload) = id == question
  takes question _ = false

  -- The operations that may give out a number.
  abbrev pub Numbers : HostOp V → Type 0
  Numbers (connects params started) = Unit
  Numbers (server_says connection server (asked i m p)) = Unit
  Numbers _ = ⊥

  -- A connect either changes nothing or adds one connection.
  pub connect-cases :
      (h : McpHost) (params : V) (started : Result ℕ String)
      → ((connect json h params started).0 ≡ h)
        ⊎ ((server : ℕ) × ((connect json h params started).0
              ≡ record (counted h) { live = insert (connection_name h.next_id) server h.live }))
  unfolding connect connect_started
  connect-cases h params (err detail) = elim (Result-cases (launch_for json h params)) [
    | inr (e, refused) ↦ inl (rw (refused, connect))
    | inl (launch, found) ↦ inl (rw (found, connect))
  ]
  connect-cases h params (ok server) = elim (Result-cases (launch_for json h params)) [
    | inr (e, refused) ↦ inl (rw (refused, connect))
    | inl (launch, found) ↦ inr (server, rw (found, connect))
  ]

  pub disconnect-take :
      (h : McpHost) (params : V) → (disconnect json h params).0 ≡ (take json h params).0
  unfolding disconnect
  disconnect-take h params = elim (Result-cases (take json h params).1) [
    | inr (e, refused) ↦ rw (refused, disconnect)
    | inl (server, found) ↦ rw (found, disconnect)
  ]

  -- A claim either changes nothing, of an id that is no question's, or takes the question off the list.
  pub claim-cases :
      (h : McpHost) (id : RequestId) (payload : ResponsePayload)
      → (((claim_response json h id payload).0 ≡ h) × ((k : ℕ) → id ≢ question_id k))
        ⊎ ((claim_response json h id payload).0
            ≡ record h { awaiting_agent = remove id h.awaiting_agent })
  unfolding claim_response route
  claim-cases h null payload = inl (refl, λ k e. ground arith)
  claim-cases h (number n) payload = inl (refl, λ k e. ground arith)
  claim-cases h (string text) payload = elim (Bool-cases (starts_with text agent_id_prefix)) [
    | inl ours ↦ inr (rw (ours, claim_response))
    | inr theirs ↦ inl (rw (theirs, claim_response), λ k e. other_prefix text k theirs e)
  ]

  -- The connections and questions numbered before, after a step.
  pub live_kept :
      (k : ℕ) (h : McpHost) (op : HostOp V)
      → (Numbers op → h.next_id ≢ k)
      → lookup (connection_name k) (host_step h op).live
        ≡ (if closes (connection_name k) op then none else lookup (connection_name k) h.live)
  unfolding host_step take to_agent shutdown_all
  live_kept k h (connects params started) g = elim (connect-cases h params started) [
    | inl same ↦ ap (λ t. lookup (connection_name k) t.live) same
    | inr (server, added) ↦
        ap (λ t. lookup (connection_name k) t.live) added
        ∙ lookup-insert (connection_name h.next_id) (connection_name k) server h.live
        ∙ rw
            (==-ne (connection_name h.next_id) (connection_name k)
              (connection_names_differ h.next_id k (g tt)))
            refl
  ]
  live_kept k h (disconnects params) g =
      ap (λ t. lookup (connection_name k) t.live) (disconnect-take h params)
      ∙ lookup-remove (named_connection json params) (connection_name k) h.live
  live_kept k h (server_says connection server (notified m p)) g = refl
  live_kept k h (server_says connection server (asked i m p)) g = refl
  live_kept k h (claims id payload) g = elim (claim-cases h id payload) [
    | inl (same, _) ↦ ap (λ t. lookup (connection_name k) t.live) same
    | inr taken ↦ ap (λ t. lookup (connection_name k) t.live) taken
  ]
  live_kept k h shuts_all g = lookup-nil (connection_name k)

  pub questions_kept :
      (k : ℕ) (h : McpHost) (op : HostOp V)
      → (Numbers op → h.next_id ≢ k)
      → lookup (question_id k) (host_step h op).awaiting_agent
        ≡ (if takes (question_id k) op then none else lookup (question_id k) h.awaiting_agent)
  unfolding host_step take to_agent shutdown_all
  questions_kept k h (connects params started) g = elim (connect-cases h params started) [
    | inl same ↦ ap (λ t. lookup (question_id k) t.awaiting_agent) same
    | inr (server, added) ↦ ap (λ t. lookup (question_id k) t.awaiting_agent) added
  ]
  questions_kept k h (disconnects params) g =
      ap (λ t. lookup (question_id k) t.awaiting_agent) (disconnect-take h params)
  questions_kept k h (server_says connection server (notified m p)) g = refl
  questions_kept k h (server_says connection server (asked i m p)) g =
      lookup-insert (question_id h.next_id) (question_id k) (server, i) h.awaiting_agent
      ∙ rw (==-ne (question_id h.next_id) (question_id k) (question_ids_differ h.next_id k (g tt)))
          refl
  questions_kept k h (claims id payload) g = elim (claim-cases h id payload) [
    | inl (same, foreign) ↦
        ap (λ t. lookup (question_id k) t.awaiting_agent) same
        ∙ rw (==-ne id (question_id k) (foreign k)) refl
    | inr taken ↦
        ap (λ t. lookup (question_id k) t.awaiting_agent) taken
        ∙ lookup-remove id (question_id k) h.awaiting_agent
  ]
  questions_kept k h shuts_all g = refl
