-- ===== src/Server/Sessions/Demultiplex.antt =====
-- The store splits the connection's updates by session.
use mjx_acp_agent.Prelude.{
  Result-cases, Bool-cases, inl, inr, ==→≡, String, Option, some, List, [], ◌∷◌, ◌==◌, string_eq,
  ◌≡◌, refl, if◌then◌else◌, ◌∙◌, Result, ok, err, inl, inr,
}
use mjx_acp_agent.Prelude.Map.{lookup}
use mjx_acp_agent.Core.Frame.{RawValue, notification}
use mjx_acp_agent.Core.Method.Client.{session_update}
use mjx_acp_agent.Thread.Schema.{Schema, SessionUpdate}
use mjx_acp_agent.Thread.Model.{Thread}
use mjx_acp_agent.Thread.Fold.Apply.{apply}
use mjx_acp_agent.Server.Sessions.Store.{
  SessionStore, Decoders, thread, thread_or_default, on_entry,
}
use mjx_acp_agent.Server.Sessions.Agent.{observe_from_agent}
use mjx_acp_agent.Server.Sessions.Threads.{lookup-on_entry}

module _ {S : Schema} {E : Type 0} (d : Decoders S E) where
  -- The agent sends these payloads as `session/update` notifications.
  pub observe_updates : SessionStore S → List RawValue → SessionStore S
  observe_updates st [] = st
  observe_updates st (raw ∷ raws) =
      observe_updates (observe_from_agent d st (notification session_update (some raw))) raws

  -- What one session's thread becomes, by itself: the other sessions' updates and the payloads that cannot
  -- be read are passed over.
  fold_one : String → Option (Thread S) → Result (String × SessionUpdate S) E → Option (Thread S)
  fold_one s t (err e) = t
  fold_one s t (ok (s', u)) = if s' == s then some (apply (thread_or_default t) u).0 else t

  pub fold_session : String → Option (Thread S) → List RawValue → Option (Thread S)
  unfolding fold_one
  fold_session s t [] = t
  fold_session s t (raw ∷ raws) = fold_session s (fold_one s t (d.session_notification raw)) raws

  observe_update-thread :
      (st : SessionStore S) (raw : RawValue) (s : String)
      → thread (observe_from_agent d st (notification session_update (some raw))) s
        ≡ fold_one s (thread st s) (d.session_notification raw)
  unfolding thread observe_from_agent fold_one
  observe_update-thread st raw s = elim (Result-cases (d.session_notification raw)) [
    | inl ((s', u), e) ↦ rw (e, observe_from_agent, fold_one) (shown s' u)
    | inr (x, e) ↦ rw (e, observe_from_agent, fold_one)
  ]
    where
      shown :
          (s' : String) (u : SessionUpdate S)
          → lookup s (on_entry s' (λ t. (apply t u).0) st.threads) ≡ (
              if s' == s
              then some (apply (thread_or_default (lookup s st.threads)) u).0
              else lookup s st.threads)
      shown s' u = elim (Bool-cases (s' == s)) [
        | inl e ↦ rw (lookup-on_entry s' s (λ t. (apply t u).0) st.threads, e, ==→≡ s' s e)
        | inr e ↦ rw (lookup-on_entry s' s (λ t. (apply t u).0) st.threads, e)
      ]

  -- After any sequence of updates for any sessions, each session's thread is the fold of that session's
  -- own updates, in their order.
  pub demultiplex :
      (st : SessionStore S) (raws : List RawValue) (s : String)
      → thread (observe_updates st raws) s ≡ fold_session s (thread st s) raws
  unfolding observe_updates fold_session
  demultiplex st [] s = refl
  demultiplex st (raw ∷ raws) s =
      demultiplex (observe_from_agent d st (notification session_update (some raw))) raws s
      ∙ rw (observe_update-thread st raw s)
