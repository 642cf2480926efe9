-- ===== src/Prelude/Map.antt =====
-- Rust's `HashMap` as an association list, newest entry first. The program never relies on the order
-- of iteration, except where it says so.
use mjx_acp_agent.Prelude.Tests.{PartialEq, ◌==◌, if◌then◌else◌, Bool-cases}
use mjx_acp_agent.Prelude.Lists.{length}
use Prim.Native.Nat.{◌≤◌}
use mathlib.Core.Path.{◌≡◌, refl}
use mathlib.Core.Logic.{inl, inr}
use mathlib.Core.Bool.{Bool, true}
use mathlib.Core.Option.{Option, none, some}
use mathlib.Core.List.{List, [], ◌∷◌}
use native.Mathlib.Omega.{arith}

abbrev pub Map {ℓ κ} : Type ℓ → Type κ → Type (ℓ ⊔ κ)
Map K V = List (K × V)

module _ {ℓ κ} {K : Type ℓ} {V : Type κ} ⦃e : PartialEq K⦄ where
  unfoldable pub lookup : K → Map K V → Option V
  lookup k [] = none
  lookup k ((j, v) ∷ m) = if j == k then some v else lookup k m

  -- `map.remove(k)`, which returns what `lookup k` does.
  unfoldable pub remove : K → Map K V → Map K V
  remove k [] = []
  remove k ((j, v) ∷ m) = let rest = remove k m in if j == k then rest else (j, v) ∷ rest

  unfoldable pub insert : K → V → Map K V → Map K V
  insert k v m = (k, v) ∷ remove k m

  pub lookup-remove :
      (k j : K) (m : Map K V) → lookup j (remove k m) ≡ (if k == j then none else lookup j m)
  unfolding lookup remove
  lookup-remove k j [] = ground arith
  lookup-remove k j ((i, w) ∷ m) =
      ground (arith, e.eq_sound i k, e.eq_sound i j, e.eq_sound k j, lookup-remove k j m)

  pub lookup-insert :
      (k j : K) (v : V) (m : Map K V)
      → lookup j (insert k v m) ≡ (if k == j then some v else lookup j m)
  unfolding insert lookup
  lookup-insert k j v m = ground (arith, lookup-remove k j m)

  pub length-remove : (k : K) (m : Map K V) → length (remove k m) ≤ length m
  unfolding remove
  length-remove k [] = omega arith
  length-remove k ((j, v) ∷ m) = ground (arith, length-remove k m)

  pub lookup-nil : (k : K) → lookup k [] ≡ none
  unfolding lookup
  lookup-nil k = refl

  -- `map.retain(|_, v| keep(v))`.
  unfoldable pub retain : (V → Bool) → Map K V → Map K V
  retain keep [] = []
  retain keep ((j, v) ∷ m) = let rest = retain keep m in if keep v then (j, v) ∷ rest else rest

  -- What a `retain` leaves behind passes the test.
  pub lookup-retain_keeps :
      (keep : V → Bool) (k : K) (m : Map K V) (v : V)
      → lookup k (retain keep m) ≡ some v
      → keep v ≡ true
  unfolding lookup retain
  lookup-retain_keeps keep k [] v h = cc
  lookup-retain_keeps keep k ((j, w) ∷ m) v h = elim (Bool-cases (keep w)) [
    | inl kept ↦ elim (Bool-cases (j == k)) [
      | inl hit ↦ ground (arith, kept, hit)
      | inr miss ↦ lookup-retain_keeps keep k m v (ground (arith, kept, miss))
    ]
    | inr dropped ↦ lookup-retain_keeps keep k m v (ground (arith, dropped))
  ]
