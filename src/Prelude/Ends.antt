-- ===== src/Prelude/Ends.antt =====
-- The last element of a list, read and written.
use Prim.Native.Nat.{ℕ, zero, suc, ◌<◌}
use mathlib.Core.Path.{◌≡◌, refl, ap}
use mathlib.Core.Logic.{◌≢◌}
use mathlib.Core.List.{List, [], ◌∷◌, ◌++◌}
use mathlib.Core.Option.{some}
use native.Mathlib.Omega.{arith}
use mjx_acp_agent.Prelude.Lists.{length, get_elem?, set, get_last?, set_last}

module _ {ℓ} {A : Type ℓ} where
  -- A list with a last element is what comes before, and that element.
  pub last_split :
      (xs : List A) {x : A}
      → get_last? xs ≡ some x
      → (ys : List A) × (xs ≡ ys ++ x ∷ []) × ((y : A) → set_last xs y ≡ ys ++ y ∷ [])
  last_split [] h = cc
  last_split (a ∷ []) h = ([], ground arith, λ y. refl)
  last_split (a ∷ b ∷ xs) h =
      let (ys, e, w) = last_split (b ∷ xs) h in
      (a ∷ ys, ap (λ zs. a ∷ zs) e, λ y. ap (λ zs. a ∷ zs) (w y))

  pub get_last?-append : (xs : List A) (x : A) → get_last? (xs ++ x ∷ []) ≡ some x
  get_last?-append [] x = refl
  get_last?-append (a ∷ []) x = refl
  get_last?-append (a ∷ b ∷ xs) x = get_last?-append (b ∷ xs) x

  pub set_last-append : (xs : List A) (x y : A) → set_last (xs ++ x ∷ []) y ≡ xs ++ y ∷ []
  set_last-append [] x y = refl
  set_last-append (a ∷ []) x y = refl
  set_last-append (a ∷ b ∷ xs) x y = ap (λ zs. a ∷ zs) (set_last-append (b ∷ xs) x y)

  pub length-set_last : (xs : List A) (y : A) → length (set_last xs y) ≡ length xs
  length-set_last [] y = refl
  length-set_last (a ∷ []) y = refl
  length-set_last (a ∷ b ∷ xs) y = ap suc (length-set_last (b ∷ xs) y)

  pub get_elem?-set_last :
      (xs : List A) (y : A) (j : ℕ)
      → suc j ≢ length xs
      → get_elem? (set_last xs y) j ≡ get_elem? xs j
  get_elem?-set_last [] y j h = refl
  get_elem?-set_last (a ∷ []) y zero h = absurd (h refl)
  get_elem?-set_last (a ∷ []) y (suc j) h = refl
  get_elem?-set_last (a ∷ b ∷ xs) y zero h = refl
  get_elem?-set_last (a ∷ b ∷ xs) y (suc j) h = get_elem?-set_last (b ∷ xs) y j (λ e. h (ap suc e))

  pub get_elem?-append :
      (xs : List A) (x : A) (j : ℕ) → j < length xs → get_elem? (xs ++ x ∷ []) j ≡ get_elem? xs j
  get_elem?-append [] x j h = absurd (omega arith)
  get_elem?-append (a ∷ xs) x zero h = refl
  get_elem?-append (a ∷ xs) x (suc j) h = get_elem?-append xs x j (omega arith)

  pub length-set : (xs : List A) (i : ℕ) (v : A) → length (set xs i v) ≡ length xs
  length-set [] i v = refl
  length-set (x ∷ xs) zero v = refl
  length-set (x ∷ xs) (suc i) v = ap suc (length-set xs i v)

  pub get_elem?-set_ne :
      (xs : List A) (i j : ℕ) (v : A) → i ≢ j → get_elem? (set xs i v) j ≡ get_elem? xs j
  get_elem?-set_ne [] i j v h = refl
  get_elem?-set_ne (x ∷ xs) zero zero v h = absurd (h refl)
  get_elem?-set_ne (x ∷ xs) zero (suc j) v h = refl
  get_elem?-set_ne (x ∷ xs) (suc i) zero v h = refl
  get_elem?-set_ne (x ∷ xs) (suc i) (suc j) v h = get_elem?-set_ne xs i j v (λ e. h (ap suc e))
