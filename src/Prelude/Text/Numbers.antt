-- ===== src/Prelude/Text/Numbers.antt =====
-- A printed `u32` is read back.
use mjx_acp_agent.Prelude.Text.Cuts.{contains-append}
use mjx_acp_agent.Prelude.{
  zero, ltb, ◌-◌, Bool-cases, ◌≤◌, and_then, arith, ◌≡◌, ◌+◌, ◌<◌, ◌++◌, [], ◌∷◌, false, refl, inl,
  inr, some,
}
use Prim.Native.Nat.{suc, ℕ, ◌*◌, ◌/◌, ◌%◌, ◌^◌}
use mjx_acp_agent.Prelude.Text.{
  between, Text, contains, scan, digits, parse_u32, show_digits, show_u32,
}

scan-append : (s t : Text) (n : ℕ) → scan (s ++ t) n ≡ and_then (scan s n) (scan t)
unfolding scan
scan-append [] t n = refl
scan-append (c ∷ s) t n = ground (arith, scan-append s t (n * 10 + (c - b'0')))

scan-digit : (n c : ℕ) → n * 10 + c < 2 ^ 32 → c < 10 → scan ((b'0' + c) ∷ []) n ≡ some (n * 10 + c)
unfolding scan
scan-digit n c h d = ground arith

scan-show : (fuel n : ℕ) → n < fuel → n < 2 ^ 32 → scan (show_digits fuel n) 0 ≡ some n
unfolding show_digits
scan-show zero n h b = absurd (omega arith)
scan-show (suc fuel) n h b = elim (Bool-cases (ltb n 10)) [
  | inl one ↦ rw (one, scan-digit 0 n (omega arith) (ground arith)) (ground arith)
  | inr more ↦
      rw
        (
          more,
          scan-append (show_digits fuel (n / 10)) ((b'0' + n % 10) ∷ []) 0,
          scan-show fuel (n / 10) (ground arith) (omega arith),
          scan-digit (n / 10) (n % 10) (omega arith) (omega arith),
        )
        (ground arith)
]

-- What is printed begins with a digit.
show-begins : (fuel n : ℕ) → (c : ℕ) × (s : Text) × (show_digits (suc fuel) n ≡ c ∷ s) × (b'0' ≤ c)
unfolding show_digits
show-begins zero n = elim (Bool-cases (ltb n 10)) [
  | inl one ↦ (b'0' + n, [], rw one, omega arith)
  | inr more ↦ (b'0' + n % 10, [], rw more, omega arith)
]
show-begins (suc fuel) n = elim (Bool-cases (ltb n 10)) [
  | inl one ↦ (b'0' + n, [], rw one, omega arith)
  | inr more ↦
      let (c, s, e, h) = show-begins fuel (n / 10) in
      (c, s ++ (b'0' + n % 10) ∷ [], rw (more, e), h)
]

pub parse_u32-show_u32 : (n : ℕ) → n < 2 ^ 32 → parse_u32 (show_u32 n) ≡ some n
unfolding parse_u32 show_u32 digits
parse_u32-show_u32 n h =
    let (c, s, e, begins) = show-begins n n in
    let read = scan-show (suc n) n (omega arith) h in ground (arith, e, read)

-- A byte that is no digit is not printed.
contains-show_digits :
    (fuel n c : ℕ) → between b'0' b'9' c ≡ false → contains c (show_digits fuel n) ≡ false
unfolding contains show_digits
contains-show_digits zero n c h = refl
contains-show_digits (suc fuel) n c h = ground (
  arith,
  contains-append c (show_digits fuel (n / 10)) ((b'0' + n % 10) ∷ []),
  contains-show_digits fuel (n / 10) c h,
)

pub contains-show_u32 : (n c : ℕ) → between b'0' b'9' c ≡ false → contains c (show_u32 n) ≡ false
unfolding show_u32
contains-show_u32 n = contains-show_digits (suc n) n
