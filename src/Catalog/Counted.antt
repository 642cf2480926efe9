-- ===== src/Catalog/Counted.antt =====
-- crates/mjx-agent-catalog/src/lib.rs: how often an id is listed.
use mjx_acp_agent.Prelude.{
  ℕ, ◌+◌, String, List, [], ◌∷◌, ◌++◌, map, any, ◌≡◌, ◌≢◌, refl, sym, ap, ◌∙◌, inl, inr, Bool,
  false, ltb, if◌then◌else◌, ◌||◌, ◌==◌, string_eq, All, arith, Bool-cases, ==→≡, ==-ne,
}
use mjx_acp_agent.Catalog.{
  Machine, Catalog, AgentEntry, AgentOverride, RegistryAgent, agents_of, is_known, rank,
  insert_by_rank, sort_by_rank, override_entry, registry_entry, add_registry, entries,
}

-- No two of the configured agents have one id.
abbrev pub Distinct : List AgentOverride → Type 0
Distinct [] = Unit
Distinct (o ∷ os) = All (λ p. p.id ≢ o.id) os × Distinct os

abbrev pub one_if : Bool → ℕ
one_if b = if b then 1 else 0

-- How many entries have an id.
unfoldable pub times : String → List AgentEntry → ℕ
times x [] = 0
times x (e ∷ es) = one_if (e.id == x) + times x es

abbrev pub is_configured : String → List AgentOverride → Bool
is_configured x os = any (λ o. o.id == x) os

abbrev pub is_published : String → List RegistryAgent → Bool
is_published x others = any (λ a. a.id == x) others

module _ (x : String) where
  times-insert :
      (e : AgentEntry) (xs : List AgentEntry)
      → times x (insert_by_rank e xs) ≡ one_if (e.id == x) + times x xs
  unfolding times insert_by_rank
  times-insert e [] = refl
  times-insert e (y ∷ ys) = elim (Bool-cases (ltb (rank y) (rank e))) [
    | inl after ↦ rw after (let rest = times-insert e ys in omega (arith, rest))
    | inr before ↦ rw before refl
  ]

  times-sort : (xs : List AgentEntry) → times x (sort_by_rank xs) ≡ times x xs
  unfolding times sort_by_rank
  times-sort [] = refl
  times-sort (y ∷ ys) =
      times-insert y (sort_by_rank ys) ∙ ap (λ n. one_if (y.id == x) + n) (times-sort ys)

  times-snoc :
      (ys : List AgentEntry) (e : AgentEntry)
      → times x (ys ++ e ∷ []) ≡ times x ys + one_if (e.id == x)
  unfolding times
  times-snoc [] e = omega arith
  times-snoc (y ∷ ys) e = let rest = times-snoc ys e in omega (arith, rest)

  times-unknown : (ys : List AgentEntry) → is_known x ys ≡ false → times x ys ≡ 0
  unfolding times
  times-unknown [] h = refl
  times-unknown (y ∷ ys) h = elim (Bool-cases (y.id == x)) [
    | inl hit ↦ ground (arith, hit, h)
    | inr miss ↦
        let rest = times-unknown ys (ground (arith, miss, h)) in rw miss (omega (arith, rest))
  ]

  is_known-++ :
      (ys : List AgentEntry) (e : AgentEntry)
      → is_known x (ys ++ e ∷ []) ≡ (is_known x ys || (e.id == x))
  is_known-++ [] e = elim (Bool-cases (e.id == x)) [
    | inl hit ↦ rw hit refl
    | inr miss ↦ rw miss refl
  ]
  is_known-++ (y ∷ ys) e = elim (Bool-cases (y.id == x)) [
    | inl hit ↦ rw hit refl
    | inr miss ↦ rw miss (is_known-++ ys e)
  ]

  others_miss :
      (o : AgentOverride) (os : List AgentOverride)
      → All (λ p. p.id ≢ o.id) os
      → o.id ≡ x
      → is_configured x os ≡ false
  others_miss o [] h same = refl
  others_miss o (p ∷ os) (hp, h) same =
      rw (==-ne p.id x (λ e. hp (e ∙ sym same))) (others_miss o os h same)

  module _ (m : Machine) where
    known-configured :
        (c : Catalog) (os : List AgentOverride)
        → is_known x (map (override_entry m c) os) ≡ is_configured x os
    unfolding override_entry
    known-configured c [] = refl
    known-configured c (o ∷ os) = ap (λ b. (o.id == x) || b) (known-configured c os)

    times-configured :
        (c : Catalog) (os : List AgentOverride)
        → Distinct os
        → times x (map (override_entry m c) os) ≡ one_if (is_configured x os)
    unfolding times override_entry
    times-configured c [] h = refl
    times-configured c (o ∷ os) (others, h) = elim (Bool-cases (o.id == x)) [
      | inl hit ↦
          let none_left = others_miss o os others (==→≡ o.id x hit) in
          rw (hit, times-configured c os h, none_left) refl
      | inr miss ↦ let rest = times-configured c os h in rw miss (omega (arith, rest))
    ]

    -- What is listed already is not listed again.
    times-add_registry :
        (listed : List AgentEntry) (others : List RegistryAgent)
        → times x (add_registry m listed others)
          ≡ (if is_known x listed then times x listed else one_if (is_published x others))
    unfolding add_registry registry_entry
    times-add_registry listed [] = elim (Bool-cases (is_known x listed)) [
      | inl known ↦ rw known refl
      | inr unknown ↦ rw unknown (times-unknown listed unknown)
    ]
    times-add_registry listed (a ∷ others) = elim (Bool-cases (is_known a.id listed)) [
      | inl again ↦ rw again (
          times-add_registry listed others ∙ (elim (Bool-cases (is_known x listed)) [
            | inl known ↦ rw known refl
            | inr unknown ↦
                rw
                  (
                    unknown,
                    ==-ne a.id x (λ e.
                        absurd (ground (arith, again, unknown, ap (λ i. is_known i listed) e))),
                  )
                  refl
          ]))
      | inr fresh ↦ rw fresh (
          times-add_registry (listed ++ registry_entry m a ∷ []) others
          ∙ rw (is_known-++ listed (registry_entry m a), times-snoc listed (registry_entry m a))
              (elim (Bool-cases (is_known x listed)) [
                | inl known ↦
                    rw
                      (
                        known,
                        ==-ne a.id x (λ e.
                            absurd (ground (arith, fresh, known, ap (λ i. is_known i listed) e))),
                      )
                      (omega arith)
                | inr unknown ↦ elim (Bool-cases (a.id == x)) [
                  | inl hit ↦ rw (unknown, hit, times-unknown listed unknown) refl
                  | inr miss ↦ rw (unknown, miss) refl
                ]
              ]))
    ]

    -- An id is listed once if it is configured or published, and otherwise not at all.
    pub times-entries :
        (c : Catalog)
        → Distinct c.overrides
        → times x (entries m c)
          ≡ one_if (is_configured x c.overrides || is_published x (agents_of c))
    unfolding entries
    times-entries c distinct =
        let start = map (override_entry m c) c.overrides in
        times-sort (add_registry m start (agents_of c))
        ∙ times-add_registry start (agents_of c)
        ∙ rw (known-configured c c.overrides, times-configured c c.overrides distinct)
            (elim (Bool-cases (is_configured x c.overrides)) [
              | inl here ↦ rw here refl
              | inr absent ↦ rw absent refl
            ])
