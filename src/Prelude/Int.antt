-- ===== src/Prelude/Int.antt =====
-- Rust's `i64`: the integers, with the increment's wrap-around written out.
use Prim.Native.Nat.{ℕ, zero, suc}
use mathlib.Core.Path.{◌≡◌}
use mathlib.Core.Logic.{◌↔◌}
use mathlib.Core.Bool.{Bool, true, false}
use native.Mathlib.Omega.{arith}
use mjx_acp_agent.Prelude.Tests.{nat_beq, if◌then◌else◌, PartialEq}

-- `negsuc n` is -(n + 1).
pub data ℤ : Type 0 where
  pos : ℕ → ℤ
  negsuc : ℕ → ℤ

abbrev pub int_beq : ℤ → ℤ → Bool
int_beq (pos a) (pos b) = nat_beq a b
int_beq (negsuc a) (negsuc b) = nat_beq a b
int_beq _ _ = false

pub int_beq_iff : (a b : ℤ) → (int_beq a b ≡ true) ↔ (a ≡ b)
int_beq_iff (pos a) (pos b) = ground arith
int_beq_iff (pos a) (negsuc b) = ground arith
int_beq_iff (negsuc a) (pos b) = ground arith
int_beq_iff (negsuc a) (negsuc b) = ground arith

instance abbrev pub int_eq : PartialEq ℤ
int_eq = record { eq = int_beq; eq_sound = int_beq_iff }

-- The largest `i64`.
abbrev pub i64_max : ℕ
i64_max = 9223372036854775807

-- `n + 1` on an `i64`, as a release build computes it: the largest number is followed by the least.
abbrev pub i64_suc : ℤ → ℤ
i64_suc (pos n) = if nat_beq n i64_max then negsuc i64_max else pos (suc n)
i64_suc (negsuc zero) = pos 0
i64_suc (negsuc (suc n)) = negsuc n
