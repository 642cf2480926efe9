-- ===== src/Server/Sessions/Covers.antt =====
-- Pending requests of sessions.rs whose sessions have a thread, under the store's writes.
use mathlib.Core.Path.{subst}
use mjx_acp_agent.Prelude.{
  String, some, [], ◌∷◌, ◌==◌, string_eq, ◌≡◌, arith, Bool-cases, Option-cases, inl, inr, ◌∙◌,
  ==-refl,
}
use mjx_acp_agent.Prelude.Map.{Map, lookup, insert, remove, lookup-insert, lookup-remove, retain}
use mjx_acp_agent.Core.Frame.{RequestId, id_eq}
use mjx_acp_agent.Thread.Schema.{Schema}
use mjx_acp_agent.Thread.Model.{Thread}
use mjx_acp_agent.Thread.Elicitations.{complete_elicitation}
use mjx_acp_agent.Server.Sessions.Store.{on_entry, on_existing, without}
use mjx_acp_agent.Server.Sessions.Agent.{complete_in}
use package.text.Mathlib.TextEquality.{eq_iff}

module _ {S : Schema} where
  abbrev pub Has : Map String (Thread S) → String → Type 0
  Has m s = (t : Thread S) × (lookup s m ≡ some t)

  abbrev pub Covers : Map String (Thread S) → Map RequestId String → Type 0
  Covers m [] = Unit
  Covers m ((i, s) ∷ p) = Has m s × Covers m p

  -- Every session that has a thread keeps one.
  abbrev pub Grows : Map String (Thread S) → Map String (Thread S) → Type 0
  Grows m n = (s : String) → Has m s → Has n s

  pub Covers-Grows :
      (m n : Map String (Thread S)) (p : Map RequestId String) → Grows m n → Covers m p → Covers n p
  Covers-Grows m n [] g c = tt
  Covers-Grows m n ((i, s) ∷ p) g c = (g s c.0, Covers-Grows m n p g c.1)

  pub Covers-remove :
      (m : Map String (Thread S)) (i : RequestId) (p : Map RequestId String)
      → Covers m p
      → Covers m (remove i p)
  unfolding remove
  Covers-remove m i [] c = tt
  Covers-remove m i ((j, s) ∷ p) c = elim (Bool-cases (j == i)) [
    | inl e ↦ rw e (Covers-remove m i p c.1)
    | inr e ↦ rw e (c.0, Covers-remove m i p c.1)
  ]

  pub Covers-insert :
      (m : Map String (Thread S)) (i : RequestId) (s : String) (p : Map RequestId String)
      → Has m s
      → Covers m p
      → Covers m (insert i s p)
  unfolding insert
  Covers-insert m i s p h c = (h, Covers-remove m i p c)

  pub Covers-without :
      (m : Map String (Thread S)) (s : String) (p : Map RequestId String)
      → Covers m p
      → Covers (remove s m) (without s p)
  unfolding retain
  Covers-without m s [] c = tt
  Covers-without m s ((j, v) ∷ p) c = elim (Bool-cases (v == s)) [
    | inl e ↦ rw e (Covers-without m s p c.1)
    | inr e ↦ rw e (
      (c.0.0, lookup-remove s v m ∙ ground (arith, e, eq_iff v s, eq_iff s v, c.0.1)),
      Covers-without m s p c.1,
    )
  ]

  pub Covers-retain :
      (m : Map String (Thread S)) (s : String) (p : Map RequestId String)
      → Covers m p
      → Covers m (without s p)
  unfolding retain
  Covers-retain m s [] c = tt
  Covers-retain m s ((j, v) ∷ p) c = elim (Bool-cases (v == s)) [
    | inl e ↦ rw e (Covers-retain m s p c.1)
    | inr e ↦ rw e (c.0, Covers-retain m s p c.1)
  ]

  pub Covers-lookup :
      (m : Map String (Thread S)) (p : Map RequestId String) (i : RequestId) (s : String)
      → Covers m p
      → lookup i p ≡ some s
      → Has m s
  unfolding lookup
  Covers-lookup m [] i s c e = cc
  Covers-lookup m ((j, v) ∷ p) i s c e = elim (Bool-cases (j == i)) [
    | inl h ↦
        let found : some v ≡ some s = rw h at e in let same : v ≡ s = cc in subst (Has m) same c.0
    | inr h ↦ Covers-lookup m p i s c.1 (rw h at e)
  ]

  pub insert-Grows :
      (s : String) (t : Thread S) (m : Map String (Thread S)) → Grows m (insert s t m)
  insert-Grows s t m j h = elim (Bool-cases (s == j)) [
    | inl e ↦ (t, rw (lookup-insert s j t m, e))
    | inr e ↦ (h.0, rw (lookup-insert s j t m, e) h.1)
  ]

  pub insert-Has : (s : String) (t : Thread S) (m : Map String (Thread S)) → Has (insert s t m) s
  insert-Has s t m = (t, rw (lookup-insert s s t m, ==-refl s))

  pub on_entry-Grows :
      (s : String) (f : Thread S → Thread S) (m : Map String (Thread S)) → Grows m (on_entry s f m)
  unfolding on_entry
  on_entry-Grows s f m = insert-Grows s _ m

  pub on_entry-Has :
      (s : String) (f : Thread S → Thread S) (m : Map String (Thread S)) → Has (on_entry s f m) s
  unfolding on_entry
  on_entry-Has s f m = insert-Has s _ m

  pub on_existing-Grows :
      (s : String) (f : Thread S → Thread S) (m : Map String (Thread S))
      → Grows m (on_existing s f m)
  unfolding on_existing
  on_existing-Grows s f m j h = elim (Option-cases (lookup s m)) [
    | inl e ↦ rw (e, on_existing) h
    | inr (t, e) ↦ rw (e, on_existing) (insert-Grows s (f t) m j h)
  ]

  head-Grows :
      (s : String) (t t' : Thread S) (m n : Map String (Thread S))
      → Grows m n
      → Grows ((s, t) ∷ m) ((s, t') ∷ n)
  unfolding lookup
  head-Grows s t t' m n g j h = elim (Bool-cases (s == j)) [
    | inl e ↦ (t', rw e)
    | inr e ↦ let rest = g j (h.0, rw e at h.1) in (rest.0, rw e rest.1)
  ]

  pub complete_in-Grows : (i : String) (m : Map String (Thread S)) → Grows m (complete_in i m)
  unfolding complete_in
  complete_in-Grows i [] j h = h
  complete_in-Grows i ((s, t) ∷ m) j h = elim (Bool-cases (complete_elicitation t i).1) [
    | inl e ↦ rw (e, complete_in) (head-Grows s t _ m m (λ k x. x) j h)
    | inr e ↦ rw (e, complete_in) (head-Grows s t _ m _ (complete_in-Grows i m) j h)
  ]
