-- ===== src/Server/McpHost/Connections.antt =====
-- mcp_host.rs: how long a connection is open, and who gets the agent's answers.
use mjx_acp_agent.Prelude.{
  ℕ, suc, ◌+◌, ◌<◌, ◌≤◌, Option, none, List, [], ◌∷◌, ◌≡◌, inl, inr, refl, Bool, true, false, arith,
  ==-ne, ◌||◌, string_eq, ap, ◌∙◌, sym, length, if◌then◌else◌, any,
}
use mathlib.Core.Path.{subst}
use Prim.Native.Nat.{◌^◌}
use mjx_acp_agent.Prelude.Map.{lookup, insert, lookup-insert, lookup-nil}
use mjx_acp_agent.Core.Frame.{RequestId, id_eq}
use mjx_acp_agent.Mcp.{notified, asked}
use mjx_acp_agent.Server.Mcp.{McpServerConfig}
use mjx_acp_agent.Server.McpHost.{
  McpHost, HostJson, connection_name, question_id, new, to_agent, counted, shutdown_all, take,
}
use mjx_acp_agent.Server.McpHost.Numbers.{
  HostOp, connects, disconnects, server_says, claims, shuts_all, host_step, host_run, closes, takes,
  connect-cases, claim-cases, disconnect-take, live_kept, questions_kept, Numbers,
  connection_names_differ, question_ids_differ,
}

none_either_way {ℓ} :
    {A : Type ℓ} (b : Bool) (o : Option A) → o ≡ none → (if b then none else o) ≡ none
none_either_way true o h = refl
none_either_way false o h = h

either_end {ℓ} :
    {A : Type ℓ} (a b : Bool) (o : Option A)
    → (if b then none else (if a then none else o)) ≡ (if a || b then none else o)
either_end true true o = refl
either_end true false o = refl
either_end false true o = refl
either_end false false o = refl

module _ {V : Type 0} (json : HostJson V) where
  -- `room` more numbers can be given out, and none from the next one on has been.
  pub record Fresh (room : ℕ) (h : McpHost) : Type 0 where
    pub fits : h.next_id + room < 2 ^ 64
    pub no_connection : (j : ℕ) → h.next_id ≤ j → lookup (connection_name j) h.live ≡ none
    pub no_question : (j : ℕ) → h.next_id ≤ j → lookup (question_id j) h.awaiting_agent ≡ none

  -- What a step comes to: less room, and no number given back.
  abbrev pub Onward : ℕ → McpHost → McpHost → Type 0
  Onward room h h' = Fresh room h' × (h.next_id ≤ h'.next_id)

  unnumbered :
      (room : ℕ) (h : McpHost) (op : HostOp V)
      → Fresh (suc room) h
      → (Numbers json op → ⊥)
      → (host_step json h op).next_id ≡ h.next_id
      → Onward room h (host_step json h op)
  unnumbered room h op f quiet same = (
    record {
      fits = omega (arith, f.fits, same);
      no_connection = λ j le.
          live_kept json j h op (λ n. absurd (quiet n))
          ∙ none_either_way (closes json (connection_name j) op) _
              (f.no_connection j (omega (arith, le, same)));
      no_question = λ j le.
          questions_kept json j h op (λ n. absurd (quiet n))
          ∙ none_either_way (takes json (question_id j) op) _
              (f.no_question j (omega (arith, le, same)));
    },
    omega (arith, same),
  )

  unfoldable pub opened : McpHost → ℕ → McpHost
  opened h server = record (counted h) { live = insert (connection_name h.next_id) server h.live }

  pub opened-Onward :
      (room : ℕ) (h : McpHost) (server : ℕ) → Fresh (suc room) h → Onward room h (opened h server)
  unfolding opened
  opened-Onward room h server f = (
    record {
      fits = omega (arith, f.fits);
      no_connection = λ j le.
          lookup-insert (connection_name h.next_id) (connection_name j) server h.live
          ∙ rw
              (==-ne (connection_name h.next_id) (connection_name j)
                (connection_names_differ h.next_id j (omega (arith, le, f.fits))))
              (f.no_connection j (omega (arith, le, f.fits)));
      no_question = λ j le. f.no_question j (omega (arith, le, f.fits));
    },
    omega (arith, f.fits),
  )

  unfoldable pub questioned : McpHost → ℕ → RequestId → McpHost
  questioned h server i = record (counted h) {
    awaiting_agent = insert (question_id h.next_id) (server, i) h.awaiting_agent;
  }

  pub questioned-Onward :
      (room : ℕ) (h : McpHost) (server : ℕ) (i : RequestId)
      → Fresh (suc room) h
      → Onward room h (questioned h server i)
  unfolding questioned
  questioned-Onward room h server i f = (
    record {
      fits = omega (arith, f.fits);
      no_connection = λ j le. f.no_connection j (omega (arith, le, f.fits));
      no_question = λ j le.
          lookup-insert (question_id h.next_id) (question_id j) (server, i) h.awaiting_agent
          ∙ rw
              (==-ne (question_id h.next_id) (question_id j)
                (question_ids_differ h.next_id j (omega (arith, le, f.fits))))
              (f.no_question j (omega (arith, le, f.fits)));
    },
    omega (arith, f.fits),
  )

  weaker : (room : ℕ) (h : McpHost) → Fresh (suc room) h → Onward room h h
  weaker room h f = (
    record {
      fits = omega (arith, f.fits);
      no_connection = f.no_connection;
      no_question = f.no_question;
    },
    omega arith,
  )

  pub Fresh-step :
      (room : ℕ) (h : McpHost) (op : HostOp V)
      → Fresh (suc room) h
      → Onward room h (host_step json h op)
  unfolding host_step to_agent take shutdown_all opened questioned
  Fresh-step room h (connects params started) f = elim (connect-cases json h params started) [
    | inl same ↦ subst (Onward room h) (sym same) (weaker room h f)
    | inr (server, added) ↦ subst (Onward room h) (sym added) (opened-Onward room h server f)
  ]
  Fresh-step room h (disconnects params) f =
      unnumbered room h (disconnects params) f (λ n. n)
        (ap (λ t. t.next_id) (disconnect-take json h params))
  Fresh-step room h (server_says connection server (notified m p)) f = weaker room h f
  Fresh-step room h (server_says connection server (asked i m p)) f =
      questioned-Onward room h server i f
  Fresh-step room h (claims id payload) f =
      unnumbered room h (claims id payload) f (λ n. n)
        (elim (claim-cases json h id payload) [
          | inl (same, _) ↦ ap (λ t. t.next_id) same
          | inr taken ↦ ap (λ t. t.next_id) taken
        ])
  Fresh-step room h shuts_all f = unnumbered room h shuts_all f (λ n. n) refl

  pub Fresh-run :
      (h : McpHost) (ops : List (HostOp V)) (room : ℕ)
      → Fresh (length ops + room) h
      → Fresh room (host_run json h ops)
  unfolding host_run
  Fresh-run h [] room f = record {
    fits = omega (arith, f.fits);
    no_connection = f.no_connection;
    no_question = f.no_question;
  }
  Fresh-run h (op ∷ ops) room f =
      let f' : Fresh (suc (length ops + room)) h = record {
        fits = omega (arith, f.fits);
        no_connection = f.no_connection;
        no_question = f.no_question;
      } in
      Fresh-run (host_step json h op) ops room (Fresh-step (length ops + room) h op f').0

  pub new-Fresh :
      (servers : List McpServerConfig) (room : ℕ) → room + 1 < 2 ^ 64 → Fresh room (new servers)
  unfolding new
  new-Fresh servers room h = record {
    fits = omega arith;
    no_connection = λ j le. lookup-nil (connection_name j);
    no_question = λ j le. lookup-nil (question_id j);
  }

  -- A connection numbered before stays as it is until something ends it.
  pub live_run :
      (k : ℕ) (h : McpHost) (ops : List (HostOp V))
      → Fresh (length ops) h
      → k < h.next_id
      → lookup (connection_name k) (host_run json h ops).live ≡ (
          if any (closes json (connection_name k)) ops
          then none
          else lookup (connection_name k) h.live)
  unfolding host_run
  live_run k h [] f past = refl
  live_run k h (op ∷ ops) f past =
      let (f', later) = Fresh-step (length ops) h op f in
      live_run k (host_step json h op) ops f' (omega (arith, past, later))
      ∙ ap (λ o. if any (closes json (connection_name k)) ops then none else o)
          (live_kept json k h op (λ n e. omega (arith, past, e)))
      ∙ either_end (closes json (connection_name k) op) (any (closes json (connection_name k)) ops)
          (lookup (connection_name k) h.live)

  pub questions_run :
      (k : ℕ) (h : McpHost) (ops : List (HostOp V))
      → Fresh (length ops) h
      → k < h.next_id
      → lookup (question_id k) (host_run json h ops).awaiting_agent ≡ (
          if any (takes json (question_id k)) ops
          then none
          else lookup (question_id k) h.awaiting_agent)
  unfolding host_run
  questions_run k h [] f past = refl
  questions_run k h (op ∷ ops) f past =
      let (f', later) = Fresh-step (length ops) h op f in
      questions_run k (host_step json h op) ops f' (omega (arith, past, later))
      ∙ ap (λ o. if any (takes json (question_id k)) ops then none else o)
          (questions_kept json k h op (λ n e. omega (arith, past, e)))
      ∙ either_end (takes json (question_id k) op) (any (takes json (question_id k)) ops)
          (lookup (question_id k) h.awaiting_agent)
