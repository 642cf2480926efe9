-- ===== src/Prelude/Decimal/Injective.antt =====
-- Two numbers that are displayed alike are one number, also behind a common prefix.
use Prim.Native.Nat.{ℕ, zero, suc, ◌+◌, ◌*◌, ◌-◌, ◌<◌, ◌/◌, ◌%◌}
use Prim.Native.Char.{code}
use Prim.Native.String.{String, ◌++◌}
use text.Mathlib.TextLemmas.{nil-append, cons-append, append_cancel_left}
use mathlib.Core.Path.{◌≡◌, refl, ap, sym, ◌∙◌}
use mathlib.Core.Logic.{inl, inr}
use native.Mathlib.Omega.{arith}
use mjx_acp_agent.Prelude.Tests.{ltb, Bool-cases}
use mjx_acp_agent.Prelude.Decimal.{digit, digits_of, display}

-- The number that digits show, behind others.
shown : ℕ → String → ℕ
shown acc String.[] = acc
shown acc (String.◌∷◌ c s) = shown (acc * 10 + (code c - 48)) s

shown-append : (acc : ℕ) (s t : String) → shown acc (s ++ t) ≡ shown (shown acc s) t
unfolding shown
shown-append acc String.[] t = ap (shown acc) (nil-append t)
shown-append acc (String.◌∷◌ c s) t =
    ap (shown acc) (cons-append c s t) ∙ shown-append (acc * 10 + (code c - 48)) s t

shown-digit : (acc n : ℕ) → n < 10 → shown acc (digit n) ≡ acc * 10 + n
unfolding shown digit
shown-digit acc zero h = refl
shown-digit acc (suc zero) h = refl
shown-digit acc (suc (suc zero)) h = refl
shown-digit acc (suc (suc (suc zero))) h = refl
shown-digit acc (suc (suc (suc (suc zero)))) h = refl
shown-digit acc (suc (suc (suc (suc (suc zero))))) h = refl
shown-digit acc (suc (suc (suc (suc (suc (suc zero)))))) h = refl
shown-digit acc (suc (suc (suc (suc (suc (suc (suc zero))))))) h = refl
shown-digit acc (suc (suc (suc (suc (suc (suc (suc (suc zero)))))))) h = refl
shown-digit acc (suc (suc (suc (suc (suc (suc (suc (suc (suc n))))))))) h = omega arith

shown-digits_of : (fuel n : ℕ) → n < fuel → shown 0 (digits_of fuel n) ≡ n
unfolding digits_of
shown-digits_of zero n h = absurd (omega arith)
shown-digits_of (suc fuel) n h = elim (Bool-cases (ltb n 10)) [
  | inl one ↦ rw one (shown-digit 0 n (ground (arith, one)) ∙ omega arith)
  | inr more ↦ rw more (
      shown-append 0 (digits_of fuel (n / 10)) (digit (n % 10))
      ∙ ap (λ a. shown a (digit (n % 10))) (shown-digits_of fuel (n / 10) (ground (arith, more)))
      ∙ shown-digit (n / 10) (n % 10) (omega arith)
      ∙ omega arith)
]

pub display_injective : (m n : ℕ) → display m ≡ display n → m ≡ n
unfolding display
display_injective m n h =
    sym (shown-digits_of (suc m) m (omega arith))
    ∙ ap (shown 0) h
    ∙ shown-digits_of (suc n) n (omega arith)

pub display_injective_behind :
    (prefix : String) (m n : ℕ) → prefix ++ display m ≡ prefix ++ display n → m ≡ n
display_injective_behind prefix m n h =
    display_injective m n (append_cancel_left prefix (display m) (display n) h)
