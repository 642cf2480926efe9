-- ===== src/Prelude/Decimal.antt =====
-- How Rust displays an unsigned number.
pub mod Injective
use Prim.Native.Nat.{ℕ, zero, suc, ◌/◌, ◌%◌}
use Prim.Native.String.{String, ◌++◌}
use mjx_acp_agent.Prelude.Tests.{ltb, if◌then◌else◌}
use mathlib.Core.Path.{◌≡◌, refl}

digit : ℕ → String
digit zero = "0"
digit (suc zero) = "1"
digit (suc (suc zero)) = "2"
digit (suc (suc (suc zero))) = "3"
digit (suc (suc (suc (suc zero)))) = "4"
digit (suc (suc (suc (suc (suc zero))))) = "5"
digit (suc (suc (suc (suc (suc (suc zero)))))) = "6"
digit (suc (suc (suc (suc (suc (suc (suc zero))))))) = "7"
digit (suc (suc (suc (suc (suc (suc (suc (suc zero)))))))) = "8"
digit (suc (suc (suc (suc (suc (suc (suc (suc (suc n))))))))) = "9"

-- A number has fewer digits than `n + 1`.
digits_of : ℕ → ℕ → String
digits_of zero n = ""
digits_of (suc fuel) n =
    let front = digits_of fuel (n / 10) in if ltb n 10 then digit n else front ++ digit (n % 10)

unfoldable pub display : ℕ → String
unfolding digit digits_of
display n = digits_of (suc n) n

display_1204 : display 1204 ≡ "1204"
unfolding display
display_1204 = refl
