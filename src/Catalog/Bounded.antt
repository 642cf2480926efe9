-- ===== src/Catalog/Bounded.antt =====
-- crates/mjx-agent-catalog/src/registry.rs: the bound on the version of an npm package.
use mjx_acp_agent.Prelude.{
  ℕ, none, some, [], ◌∷◌, ◌++◌, ◌≡◌, refl, sym, ap, ◌∙◌, inl, inr, Bool, true, false, not, ◌||◌,
  nat_beq, if◌then◌else◌, arith, Bool-cases, Option-cases,
}
use mathlib.Core.Path.{subst}
use mjx_acp_agent.Prelude.Text.{Text, str, is_empty, contains, rsplit_once}
use mjx_acp_agent.Prelude.Text.Cuts.{rsplit_once-append}
use mjx_acp_agent.Catalog.Registry.{is_semver, core_of, split_dots, bounded_npm_package_spec}

rsplit_once-contains : (c : ℕ) (s : Text) → rsplit_once c s ≡ none → contains c s ≡ false
unfolding rsplit_once contains
rsplit_once-contains c [] h = refl
rsplit_once-contains c (x ∷ s) h = elim (Option-cases (rsplit_once c s)) [
  | inr (cut, found) ↦ ground (arith, found, h)
  | inl missing ↦ elim (Bool-cases (nat_beq x c)) [
    | inl hit ↦ ground (arith, missing, hit, h)
    | inr miss ↦ ground (arith, miss, rsplit_once-contains c s missing)
  ]
]

rsplit_once-tail : (c : ℕ) (s p v : Text) → rsplit_once c s ≡ some (p, v) → contains c v ≡ false
unfolding rsplit_once
rsplit_once-tail c [] p v h = ground arith
rsplit_once-tail c (x ∷ s) p v h = elim (Option-cases (rsplit_once c s)) [
  | inr ((q, w), found) ↦
      subst (λ t. contains c t ≡ false) (ground (arith, found, h)) (rsplit_once-tail c s q w found)
  | inl missing ↦ elim (Bool-cases (nat_beq x c)) [
    | inl hit ↦
        subst (λ t. contains c t ≡ false) (ground (arith, missing, hit, h))
          (rsplit_once-contains c s missing)
    | inr miss ↦ ground (arith, missing, miss, h)
  ]
]

-- What is bounded has no version that is bounded again.
range_no_semver : (v : Text) → is_semver (str "0.0.0 - " ++ v) ≡ false
unfolding is_semver core_of split_dots
range_no_semver v = refl

abbrev range : Text → Text → Text
range name version = name ++ b'@' ∷ (str "0.0.0 - " ++ version)

no_at_range :
    (version : Text)
    → contains b'@' version ≡ false
    → contains b'@' (str "0.0.0 - " ++ version) ≡ false
unfolding contains
no_at_range version h = h

-- What has no version is kept as it is.
unversioned :
    (spec name version : Text)
    → rsplit_once b'@' spec ≡ some (name, version)
    → is_semver version ≡ false
    → bounded_npm_package_spec spec ≡ spec
unfolding bounded_npm_package_spec
unversioned spec name version cut no_version =
    rw (cut, no_version, bounded_npm_package_spec) (either (is_empty name))
  where
    either : (b : Bool) → (if b || true then spec else range name version) ≡ spec
    either true = refl
    either false = refl

range-kept :
    (name version : Text)
    → contains b'@' version ≡ false
    → bounded_npm_package_spec (range name version) ≡ range name version
range-kept name version no_at =
    unversioned (range name version) name (str "0.0.0 - " ++ version)
      (rsplit_once-append b'@' name (str "0.0.0 - " ++ version) (no_at_range version no_at))
      (range_no_semver version)

-- Bounding a specification a second time changes nothing.
pub bounded_npm_package_spec-twice :
    (spec : Text)
    → bounded_npm_package_spec (bounded_npm_package_spec spec) ≡ bounded_npm_package_spec spec
unfolding bounded_npm_package_spec
bounded_npm_package_spec-twice spec = elim (Option-cases (rsplit_once b'@' spec)) [
  | inl uncut ↦ ap bounded_npm_package_spec (rw (uncut, bounded_npm_package_spec) refl)
  | inr ((name, version), cut) ↦ elim (Bool-cases (is_empty name || not (is_semver version))) [
    | inl kept ↦ ap bounded_npm_package_spec (rw (cut, kept, bounded_npm_package_spec) refl)
    | inr bound ↦
        let once : bounded_npm_package_spec spec ≡ range name version =
          rw (cut, bound, bounded_npm_package_spec) refl in
        ap bounded_npm_package_spec once
        ∙ range-kept name version (rsplit_once-tail b'@' spec name version cut)
        ∙ sym once
  ]
]
