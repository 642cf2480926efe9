-- ===== src/Thread/Mention/Escapes.antt =====
-- mention.rs: `decode_path_escapes` and `percent_decode`.
use Prim.Native.Nat.{◌*◌}
use mjx_acp_agent.Prelude.{
  ◌+◌, ◌+◌, ◌-◌, ◌-◌, ◌||◌, ◌||◌, and_then, nat_beq, Option, not, if◌then◌else◌, ℕ, Bool, true,
  false, ◌∷◌, none, some,
}
use mjx_acp_agent.Prelude.Text.{text_beq, contains, between, is_utf8, Text}
use mjx_acp_agent.Thread.Mention.{Crates}

unfoldable pub hex_digit : ℕ → Option ℕ
hex_digit byte =
    if between b'0' b'9' byte
    then some (byte - b'0')
    else if between b'a' b'f' byte
    then some (byte - b'a' + 10)
    else if between b'A' b'F' byte
    then some (byte - b'A' + 10)
    else none

abbrev pub is_separator : ℕ → Bool
is_separator byte = nat_beq byte b'/' || nat_beq byte b'\\'

-- The byte that `x`, `h` and `l` stand for, where they are an escape that is decoded. `high << 4 | low` is written
-- out: both are below 16.
unfoldable pub escaped : ℕ → ℕ → ℕ → Option ℕ
escaped x h l =
    if nat_beq x b'%'
    then (and_then (hex_digit h) λ high.
        and_then (hex_digit l)
          λ low. if is_separator (high * 16 + low) then none else some (high * 16 + low))
    else none

-- The loop over the bytes from `index` on.
unfoldable pub decode_bytes : Text → Text
decode_bytes (x ∷ h ∷ l ∷ s) = elim (escaped x h l) [
  | some byte ↦ byte ∷ decode_bytes s
  | none ↦ x ∷ decode_bytes (h ∷ l ∷ s)
]
decode_bytes s = s

-- The text, and whether it is owned: `Cow::Owned` or `Cow::Borrowed`.
unfoldable pub decode_path_escapes : Text → Text × Bool
decode_path_escapes input =
    let decoded = decode_bytes input in
    if not (contains b'%' input)
    then (input, false)
    else if text_beq decoded input
    then (input, false)
    else if is_utf8 decoded
    then (decoded, true)
    else (input, false)

unfoldable pub percent_decode : (C : Crates) → Text → Text
percent_decode C input =
    let decoded = C.percent_decode_str input in if is_utf8 decoded then decoded else input
