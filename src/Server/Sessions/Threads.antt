-- ===== src/Server/Sessions/Threads.antt =====
-- How the store's writes through `entry` and `get_mut` show in its threads.
use mjx_acp_agent.Prelude.{
  String, Option, none, some, ◌==◌, string_eq, ◌≡◌, arith, if◌then◌else◌, Option-cases, inl, inr,
}
use mjx_acp_agent.Prelude.Map.{Map, lookup, lookup-insert}
use mjx_acp_agent.Thread.Schema.{Schema}
use mjx_acp_agent.Thread.Model.{Thread}
use mjx_acp_agent.Server.Sessions.Store.{thread_or_default, on_entry, on_existing}
use package.text.Mathlib.TextEquality.{eq_iff}

abbrev pub map_thread {ℓ} : {A : Type ℓ} → (A → A) → Option A → Option A
map_thread f none = none
map_thread f (some t) = some (f t)

module _ {S : Schema} (s j : String) (f : Thread S → Thread S) (m : Map String (Thread S)) where
  pub lookup-on_entry :
      lookup j (on_entry s f m)
      ≡ (if s == j then some (f (thread_or_default (lookup s m))) else lookup j m)
  unfolding on_entry
  lookup-on_entry = lookup-insert s j _ m

  pub lookup-on_existing :
      lookup j (on_existing s f m) ≡ (if s == j then map_thread f (lookup s m) else lookup j m)
  unfolding on_existing
  lookup-on_existing = elim (Option-cases (lookup s m)) [
    | inl e ↦ rw (e, on_existing) (ground (arith, e, eq_iff s j))
    | inr (t, e) ↦ rw (e, on_existing) (lookup-insert s j (f t) m)
  ]
